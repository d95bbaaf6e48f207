-- ===== src/Network/Status/Queries.antt =====
-- internal/network/status.go: ClusterStatus and the stream handler, which ask the peers.
use p2pos.Network.Status.Named.{contains-merge_status_records}
use p2pos.Network.Status.Newest.{
  merge_status_records-newest, merge_status_records-IsSorted, Has, peer_ids,
}
use p2pos.Text.Sorted.{IsSorted}
use p2pos.Text.Order.{same-eq}
use mathlib.Core.List.{append_assoc, append-nil}
use p2pos.Network.Node.{can_use_business_protocols, Node, Peers}
use p2pos.Env.{Env}
use p2pos.Network.Status.{record_of, merge_status_records, Record}
use p2pos.Text.{is_blank, same, contains, Text}
use p2pos.Common.{
  ◌&&◌, ◌≤◌, All, false, true, Bool-cases, [], ◌∙◌, ◌++◌, ◌∷◌, ◌≡◌, if◌then◌else◌, Result, Option,
  List, not, sym, ap, arith, or_err, err, ok, refl, inr, inl, some, none,
}

-- What FetchStatus comes to: records, a peer that does not speak the protocol, or another failure.
pub data Answer : Type 0 where
  answered : List Record → Answer
  not_supported query_failed : Answer

pub data StatusError : Type 0 where
  node_unconfigured local_status_failed : StatusError

-- `scope_local` is every scope but "cluster", and a request that cannot be decoded.
pub data StatusScope : Type 0 where
  scope_local scope_cluster : StatusScope

-- The records of an answer.
abbrev pub records_of : Answer → List Record
records_of (answered rs) = rs
records_of not_supported = []
records_of query_failed = []

module _ (env : Env) where
  -- One turn of the loop of ClusterStatus.
  unfoldable pub query_peer :
      (Text → Answer) → Text → Node env × List Record → Node env × List Record
  query_peer fetch pid (n, all) =
      if contains pid n.status_unsupported then (n, all) else elim (fetch pid) [
        | answered rs ↦ (n, all ++ rs)
        | not_supported ↦ (record n { status_unsupported = pid ∷ n.status_unsupported }, all)
        | query_failed ↦ (n, all)
      ]

  unfoldable pub query_peers :
      (Text → Answer) → Peers → Node env × List Record → Node env × List Record
  query_peers fetch [] acc = acc
  query_peers fetch ((pid, connected) ∷ rest) acc =
      query_peers fetch rest (query_peer fetch pid acc)

  -- ClusterStatus; `local` is what localStatus returns, missing on its error.
  unfoldable pub cluster_status :
      Option (List Record)
      → (Text → Answer)
      → Peers
      → Node env
      → Node env × Result StatusError (List Record)
  cluster_status local fetch peers n =
      if not (can_use_business_protocols env n) then (n, err node_unconfigured) else elim local [
        | none ↦ (n, err local_status_failed)
        | some mine ↦
            let (last, all) = query_peers fetch peers (n, mine) in
            (last, ok (merge_status_records all))
      ]

  -- The stream handler of registerStatusHandler: the response to a request.
  unfoldable pub on_status_request :
      StatusScope
      → Option (List Record)
      → (Text → Answer)
      → Peers
      → Node env
      → Node env × Result StatusError (List Record)
  on_status_request scope_cluster local fetch peers n =
      if not (can_use_business_protocols env n)
      then (n, err node_unconfigured)
      else cluster_status local fetch peers n
  on_status_request scope_local local fetch peers n =
      if not (can_use_business_protocols env n)
      then (n, err node_unconfigured)
      else (n, or_err local local_status_failed)

  -- What the peers answer that were not found before to lack the protocol.
  unfoldable pub answers : (Text → Answer) → List Text → Peers → List Record
  answers fetch skipped [] = []
  answers fetch skipped ((pid, connected) ∷ rest) =
      let others = answers fetch skipped rest in
      if contains pid skipped then others else records_of (fetch pid) ++ others

  -- A peer that lacks the protocol has no records, so it makes no difference whether it is skipped.
  answers-skip :
      (fetch : Text → Answer) (pid : Text) (skipped : List Text) (peers : Peers)
      → fetch pid ≡ not_supported
      → answers fetch (pid ∷ skipped) peers ≡ answers fetch skipped peers
  unfolding answers
  answers-skip fetch pid skipped [] h = refl
  answers-skip fetch pid skipped ((q, connected) ∷ rest) h = elim (Bool-cases (same q pid)) [
    | inl e ↦
        let none_there : records_of (fetch q) ≡ [] =
          ap (λ x. records_of (fetch x)) (same-eq q pid e) ∙ ap records_of h in
        ground (arith, answers-skip fetch pid skipped rest h)
    | inr e ↦ ground (arith, answers-skip fetch pid skipped rest h)
  ]

  query_peers-answers :
      (fetch : Text → Answer) (peers : Peers) (n : Node env) (all : List Record)
      → (query_peers fetch peers (n, all)).1 ≡ all ++ answers fetch n.status_unsupported peers
  unfolding query_peers query_peer answers
  query_peers-answers fetch [] n all = sym (append-nil all)
  query_peers-answers fetch ((pid, connected) ∷ rest) n all =
      elim (Bool-cases (contains pid n.status_unsupported)) [
        | inl h ↦ simp (query_peers, query_peer, answers, h, query_peers-answers fetch rest n all)
        | inr h ↦ by_answer (query_peers-answers fetch rest) (fetch pid) refl h
      ]
    where
      skipped : List Text
      skipped = n.status_unsupported

      by_answer :
          ((m : Node env) (before : List Record)
            → (query_peers fetch rest (m, before)).1
              ≡ before ++ answers fetch m.status_unsupported rest)
          → (answer : Answer) → fetch pid ≡ answer
          → contains pid skipped ≡ false
          → (query_peers fetch rest (query_peer fetch pid (n, all))).1
            ≡ all
              ++ (if contains pid skipped
                  then answers fetch skipped rest
                  else records_of (fetch pid) ++ answers fetch skipped rest)
      by_answer ih (answered rs) e h =
          rw (query_peer, h, e)
            (ih n (all ++ rs) ∙ append_assoc all rs (answers fetch skipped rest))
      by_answer ih not_supported e h =
          rw (query_peer, h, e)
            (ih (record n { status_unsupported = pid ∷ skipped }) all
              ∙ ap (λ x. all ++ x) (answers-skip fetch pid skipped rest e))
      by_answer ih query_failed e h = rw (query_peer, h, e) (ih n all)

  -- A cluster request to a node that is configured and can read its own records returns the merge of
  -- these and of the answers of all peers that were not known before to lack the protocol: for each
  -- peer that one of these names, the record that was seen last, in order of the peer ids and each
  -- peer once; and no record of a peer that none of these names, and none with a blank id.
  pub on_status_request-newest :
      (mine : List Record) (fetch : Text → Answer) (peers : Peers) (n : Node env)
      → can_use_business_protocols env n ≡ true
      → (rs : List Record) × ((on_status_request scope_cluster (some mine) fetch peers n).1 ≡ ok rs)
        × IsSorted (peer_ids rs)
        × ((a : Text)
            → contains a (peer_ids rs) ≡ (
                not (is_blank a)
                && contains a (peer_ids (mine ++ answers fetch n.status_unsupported peers))))
        × ((a : Text)
            → is_blank a ≡ false
            → contains a (peer_ids (mine ++ answers fetch n.status_unsupported peers)) ≡ true
            → (r : Record) × (record_of a rs ≡ some r)
              × Has r (mine ++ answers fetch n.status_unsupported peers)
              × (same a r.peer_id ≡ true)
              × All
                  (λ x. same a x.peer_id ≡ true → x.last_seen_at ≤ r.last_seen_at)
                  (mine ++ answers fetch n.status_unsupported peers))
  unfolding on_status_request cluster_status
  on_status_request-newest mine fetch peers n h =
      let all = mine ++ answers fetch n.status_unsupported peers in
      (
        merge_status_records all,
        rw (on_status_request, cluster_status, h, query_peers-answers fetch peers n mine) refl,
        merge_status_records-IsSorted all,
        λ a. contains-merge_status_records a all,
        λ a b c. merge_status_records-newest a all b c,
      )
