-- ===== src/Server/Engine/Config/Names.antt =====
-- The names of the nodes in the configuration of a batch (server/src/engine.rs).
use sub_hub.Common.{
  ◌+◌, ◌^◌, ◌<◌, ◌≡◌, refl, true, false, Bool-cases, inl, inr, Option, some, none, List, [], ◌∷◌,
  Text, length, contains_text, arith,
}
use sub_hub.Model.Proxy.{Proxy, is_exportable}
use sub_hub.Export.Names.Unique.{claim_name_total}
use sub_hub.Server.Engine.Config.{batch_names}

-- What the names are, after the names that are used: a node that the engine can run has one that is
-- none of the used ones and that is its own if that is free, and every other node has none.
abbrev pub Addressed : List Text → List Proxy → List (Option Text) → Type 0
Addressed used [] [] = Unit {0}
Addressed used (p ∷ ps) (some n ∷ ns) =
    (is_exportable p ≡ true)
    × (contains_text used n ≡ false)
    × (contains_text used p.name ≡ false → n ≡ p.name)
    × Addressed (n ∷ used) ps ns
Addressed used (p ∷ ps) (none ∷ ns) = (is_exportable p ≡ false) × Addressed used ps ns
Addressed used _ _ = ⊥

names_total :
    (used : List Text) (ps : List Proxy)
    → length used + length ps + 3 < 2 ^ 64
    → (ns : List (Option Text)) × (batch_names used ps ≡ some ns) × Addressed used ps ns
unfolding batch_names
names_total used [] small = ([], refl, tt)
names_total used (p ∷ ps) small = elim (Bool-cases (is_exportable p)) [
  | inl yes_e ↦
      let (n, e, fresh, kept) = claim_name_total used p.name (omega arith) in
      let (ns, es, rest) = names_total (n ∷ used) ps (omega arith) in
      (some n ∷ ns, rw (yes_e, e, es, batch_names) refl, (yes_e, fresh, kept, rest))
  | inr no_e ↦
      let (ns, es, rest) = names_total used ps (omega arith) in
      (none ∷ ns, rw (no_e, es, batch_names) refl, (no_e, rest))
]

-- For fewer than 2 ^ 31 - 3 nodes the names of a batch are found, so that a suffix stays within an
-- `i32`: there is one for each node that the engine can run and for no other, in their order, each
-- different from those before it, and a node keeps its name if that is free.
pub batch_names_total :
    (ps : List Proxy)
    → length ps + 3 < 2 ^ 31
    → (ns : List (Option Text)) × (batch_names [] ps ≡ some ns) × Addressed [] ps ns
batch_names_total ps small = names_total [] ps (omega arith)
