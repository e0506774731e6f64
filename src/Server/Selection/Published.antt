-- ===== src/Server/Selection/Published.antt =====
-- What the serialisers are given.
use sub_hub.Common.{◌≢◌, ◌⊎◌, false, ◌≡◌, true, some, List, [], ◌∷◌, Text}
use sub_hub.Model.Proxy.{Proxy, is_exportable}

-- The node can be written to every format, and was not found unavailable.
abbrev pub Runs : Proxy → Type 0
Runs p = (is_exportable p ≡ true) × (p.available ≢ some false)

-- The published nodes are those that run, in their order, each but for its name as it was chosen.
abbrev pub Published : List Proxy → List Proxy → Type 0
Published [] qs = qs ≡ []
Published (p ∷ ps) qs =
    ((¬ (Runs p)) × Published ps qs)
    ⊎ (Runs p
        × (n : Text) × (rest : List Proxy) × (qs ≡ record p { name = n } ∷ rest)
        × Published ps rest)

-- The same nodes, but for their names.
abbrev SameBut : List Proxy → List Proxy → Type 0
SameBut [] [] = Unit
SameBut (p ∷ ps) (q ∷ qs) = (q ≡ record p { name = q.name }) × SameBut ps qs
SameBut _ _ = ⊥
