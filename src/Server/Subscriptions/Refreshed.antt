-- ===== src/Server/Subscriptions/Refreshed.antt =====
-- What a refresh leaves of the store.
use sub_hub.Common.{
  ℕ, suc, ◌<◌, ◌≡◌, refl, Bool, false, ◌⊎◌, inl, inr, Option, none, some, List, [], ◌∷◌, Text,
  length, text_eq, contains_text, lit, arith, if◌then◌else◌, Bool-cases, ◌==◌,
}
use sub_hub.Model.Proxy.{Proxy}
use sub_hub.Model.Merge.{merge, merge_from}
use sub_hub.Model.Subscription.{Subscription}
use sub_hub.Ops.Update.{incremental_update}
use sub_hub.Ops.Update.Refresh.{incremental_update_lem}
use sub_hub.Parse.Uri.{Codecs}
use sub_hub.Parse.Usage.{SubscriptionUsage}
use sub_hub.Parse.Document.{parse_subscription}
use sub_hub.Server.Requests.{
  Sent, Fetched, document, error, fetch_subscription_text, usage_from_sources,
}
use sub_hub.Server.Subscriptions.{Client, find_by_id, update_by_id, not_blank, with_usage}
use sub_hub.Server.Subscriptions.Phases.{
  FetchPhase, no_fetch, fetched, fetch_err, Outcome, refreshed, restamped, failed, Refresh, settle,
  note_error, first_phase, read_fetched, do_refresh_one, settled, refresh_answer,
}

-- After an answer, the nodes of a subscription: those it had, unless the answer is a new list,
-- which is not empty.
abbrev Nodes : Outcome → List Proxy → List Proxy → Type 0
Nodes (refreshed _ _) old new = (new ≡ old) ⊎ (0 < length new)
Nodes (restamped _) old new = new ≡ old
Nodes (failed _) old new = new ≡ old

abbrev identity : Subscription → Text × Text × Text × Text
identity s = (s.id, s.uid, s.name, s.source)

-- Two stores position by position: the same ids, uids, names and sources, and nodes as above.
abbrev pub Refreshed : Outcome → List Subscription → List Subscription → Type 0
Refreshed o [] [] = Unit
Refreshed o [] (t ∷ ts) = ⊥
Refreshed o (s ∷ ss) [] = ⊥
Refreshed o (s ∷ ss) (t ∷ ts) =
    (identity t ≡ identity s) × Nodes o s.proxies t.proxies × Refreshed o ss ts

Nodes-refl : (o : Outcome) (ps : List Proxy) → Nodes o ps ps
Nodes-refl (refreshed _ _) ps = inl refl
Nodes-refl (restamped _) ps = refl
Nodes-refl (failed _) ps = refl

Refreshed-refl : (o : Outcome) (ss : List Subscription) → Refreshed o ss ss
Refreshed-refl o [] = tt
Refreshed-refl o (s ∷ ss) = (refl, Nodes-refl o s.proxies, Refreshed-refl o ss)

update_by_id-Refreshed :
    (o : Outcome) (id : Text) (f : Subscription → Subscription)
    → ((s : Subscription) → (identity (f s) ≡ identity s) × Nodes o s.proxies (f s).proxies)
    → (ss : List Subscription) → Refreshed o ss (update_by_id id f ss)
unfolding update_by_id
update_by_id-Refreshed o id f h [] = tt
update_by_id-Refreshed o id f h (s ∷ ss) = elim (Bool-cases (text_eq s.id id)) [
  | inl e ↦ rw e ((h s).0, (h s).1, Refreshed-refl o ss)
  | inr e ↦ rw e (refl, Nodes-refl o s.proxies, update_by_id-Refreshed o id f h ss)
]

incremental_update-nonempty :
    (old : List Proxy) (p : Proxy) (ps : List Proxy)
    → 0 < length (incremental_update old (p ∷ ps)).0
unfolding merge merge_from contains_text
incremental_update-nonempty old p ps = rw (incremental_update_lem old (p ∷ ps)) (omega arith)

-- Every list that was fetched has nodes.
abbrev HasNodes : FetchPhase → Type 0
HasNodes (fetched ps u) = (p : Proxy) × (rest : List Proxy) × (ps ≡ p ∷ rest)
HasNodes (fetch_err e) = Unit
HasNodes no_fetch = Unit

fetched-HasNodes :
    (ps : List Proxy) (u : SubscriptionUsage) (e : Text)
    → HasNodes (if length ps == 0 then fetch_err e else fetched ps u)
fetched-HasNodes [] u e = tt
fetched-HasNodes (p ∷ ps) u e = rw (suc-nonzero (length ps)) (p, ps, refl)
  where
    suc-nonzero : (n : ℕ) → (suc n == 0) ≡ false
    suc-nonzero n = ground arith

read_fetched-HasNodes : (k : Codecs) (f : Fetched) → HasNodes (read_fetched k f)
unfolding read_fetched
read_fetched-HasNodes k (error e) = tt
read_fetched-HasNodes k (document text userinfo) =
    fetched-HasNodes (parse_subscription k text) (usage_from_sources k userinfo text)
      (lit "订阅返回 0 个节点（已保留原有节点）")

first_phase-HasNodes :
    (k : Codecs) (get : Text → Sent) (s : Subscription) → HasNodes (first_phase k get s)
unfolding first_phase
first_phase-HasNodes k get s = elim (Bool-cases (text_eq s.health.source_type (lit "remote"))) [
  | inl e ↦ rw e (read_fetched-HasNodes k (fetch_subscription_text k get s.source))
  | inr e ↦ rw e tt
]

-- The answer is that of the subscription found, `t`; the step is that of any, `s`.
settle-Nodes :
    (now : ℕ) (source_type : Text) (phase : FetchPhase) (t s : Subscription)
    → HasNodes phase
    → (identity (settle now source_type phase s).0 ≡ identity s)
      × Nodes
          (settle now source_type phase t).1
          s.proxies
          (settle now source_type phase s).0.proxies
unfolding settle with_usage
settle-Nodes now source_type (fetched ps u) t s (p, rest, e) =
    (refl, inr (rw e (incremental_update-nonempty s.proxies p rest)))
settle-Nodes now source_type (fetch_err e) t s h = (refl, refl)
settle-Nodes now source_type no_fetch t s h =
    elim (Bool-cases (text_eq source_type (lit "local"))) [
      | inl e ↦ rw e (refl, refl)
      | inr e ↦ rw e (refl, refl)
    ]

note_error-Nodes :
    (now : ℕ) (e : Text) (s : Subscription)
    → (identity (note_error now e s) ≡ identity s)
      × Nodes (failed (some e)) s.proxies (note_error now e s).proxies
unfolding note_error
note_error-Nodes now e s = (refl, refl)

module _ (k : Codecs) (now : ℕ) (id : Text) (after : List Subscription) (t : Subscription)
    (found : find_by_id id after ≡ some t) where
  settled-Refreshed :
      (source_type : Text) (phase : FetchPhase)
      → HasNodes phase
      → (r : Refresh) × (settled now id source_type phase after ≡ some r) × Refreshed r.1 after r.0
  unfolding settled
  settled-Refreshed source_type phase h =
      let step : Subscription → Subscription = λ u. (settle now source_type phase u).0 in
      let result = settle now source_type phase t in
      (
        (update_by_id id step after, result.1, result.2),
        rw found refl,
        update_by_id-Refreshed result.1 id step (λ u. settle-Nodes now source_type phase t u h)
            after,
      )

  refresh_answer-Refreshed :
      (s : Subscription) (client : Client)
      → (r : Refresh) × (refresh_answer k now id after s client ≡ some r) × Refreshed r.1 after r.0
  unfolding refresh_answer
  refresh_answer-Refreshed s (Client.refused e) = (
    (update_by_id id (note_error now e) after, failed (some e), []),
    refl,
    update_by_id-Refreshed (failed (some e)) id (note_error now e) (note_error-Nodes now e) after,
  )
  refresh_answer-Refreshed s (Client.ready get) =
      settled-Refreshed s.health.source_type (first_phase k get s) (first_phase-HasNodes k get s)

-- A refresh of a subscription that is there before and after the fetch gives an answer, whatever
-- was fetched and however the store has changed meanwhile. Every subscription of the later store
-- stands at its position with its id, uid, name and source; its nodes are those it had, unless the
-- answer is that a list was refreshed, and then they are those it had or a list that is not empty.
pub do_refresh_one-Refreshed :
    (k : Codecs) (connect : Option Text → Client) (use_proxy : Bool) (now : ℕ) (id : Text)
    (before after : List Subscription) (s t : Subscription)
    → find_by_id id before ≡ some s
    → find_by_id id after ≡ some t
    → (r : Refresh) × (do_refresh_one k connect use_proxy now id before after ≡ some r)
      × Refreshed r.1 after r.0
unfolding do_refresh_one
do_refresh_one-Refreshed k connect use_proxy now id before after s t there found =
    let proxy = if use_proxy then not_blank s.fetch_proxy else none in
    let (r, e, kept) = refresh_answer-Refreshed k now id after t found s (connect proxy) in
    (r, rw (there, do_refresh_one) e, kept)
