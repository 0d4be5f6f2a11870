-- ===== src/Index/Coherence/Reach.antt =====
-- Every reachable cluster is coherent, and once the queues are drained all copies agree.
use twig_kv.Common.{
  ℕ, ◌<◌, ◌≡◌, ◌≢◌, refl, ap, subst, ◌∙◌, inl, inr, List, [], ◌∷◌, ◌++◌, ok, arith, ◌==◌,
  if◌then◌else◌, ℕ_discrete,
}
use twig_kv.Index.Api.{IndexApi, IndexLaws}
use twig_kv.Index.Tables.{
  Request, Cluster, request, dealloc_remote, transfer, drain, execute_pending,
}
use twig_kv.Index.Publish.{write_remote_lem, Posted, dealloc_remote_other, dealloc_remote_pending}
use twig_kv.Index.Coherence.{
  AllAddressed, AllAddressed-middle, fill, IsCoherent, Step, put, evict, complete,
}
use twig_kv.Index.Coherence.Posting.{published}
use twig_kv.Index.Coherence.Transfers.{transfer_lem, completed}

module _ (api : IndexApi) (laws : IndexLaws api) (n : ℕ) where
  open api use {entry, store}
  open laws use {entry-store}

  -- The cluster after request `r` of `me` has gone through to server `i`.
  abbrev transferred : ℕ → ℕ → Request → List Request → Cluster api → Cluster api
  transferred me i r rest c = record c {
    memory = store c.memory i me r.key_index (entry c.memory me me r.key_index);
    pending = λ s. if s == me then rest else c.pending s;
  }

  -- A posted request can always go through, and keeps the cluster coherent.
  transfer-IsCoherent :
      (me : ℕ) (before after : List Request) (r : Request) (c : Cluster api)
      → me < n
      → c.pending me ≡ before ++ r ∷ after
      → IsCoherent api n c
      → (i : ℕ) × (transfer api n me r
            (record c { pending = λ s. if s == me then before ++ after else c.pending s })
          ≡ ok (transferred me i r (before ++ after) c))
        × IsCoherent api n (transferred me i r (before ++ after) c)
  transfer-IsCoherent me before after r c lt e v =
      let (i, hi, ne, ei) =
        (AllAddressed-middle api n me r before after
          (subst (AllAddressed api n me) e (v.addressed me lt))).0 in
      (
        i,
        transfer_lem api laws n me i r _ lt hi ei,
        completed api laws n me i before after r c (transferred me i r (before ++ after) c) lt hi ne
            ei e
            (λ s t k.
              entry-store c.memory i me r.key_index (entry c.memory me me r.key_index) s t k)
            (λ s. refl) v,
      )

  -- A put, an eviction or a transfer keeps the cluster coherent.
  pub Step-IsCoherent :
      {c d : Cluster api} → Step api n c d → IsCoherent api n c → IsCoherent api n d
  Step-IsCoherent {c} {d} (put me key e lt valid run) v =
      let (c', run', mem, queues) =
        write_remote_lem api n me key (fill api n me key e c)
          (ground (arith, entry-store c.memory me me key e me me key)) in
      let same : c' ≡ d = ground arith in
      subst (IsCoherent api n) same (
        published api laws n me key c c'
          (λ s t k h.
            ap (λ m. entry m s t k) mem ∙ ground (arith, entry-store c.memory me me key e s t k, h))
          queues v)
  Step-IsCoherent {c} {d} (evict me key lt e) v = rw e (
      published api laws n me key c (dealloc_remote api n me key c)
        (dealloc_remote_other api n laws me key c) (dealloc_remote_pending api n me key c) v)
  Step-IsCoherent {c} {d} (complete me before after r lt e run) v =
      let (i, run', v') = transfer-IsCoherent me before after r c lt e v in
      let same : transferred me i r (before ++ after) c ≡ d = ground arith in
      subst (IsCoherent api n) same v'

  pub data Reach (c : Cluster api) : Cluster api → Type 0 where
    here : Reach c c
    next : {d e : Cluster api} → Reach c d → Step api n d e → Reach c e

  Reach-IsCoherent : {c d : Cluster api} → IsCoherent api n c → Reach c d → IsCoherent api n d
  Reach-IsCoherent v here = v
  Reach-IsCoherent v (next r s) = Step-IsCoherent s (Reach-IsCoherent v r)

  -- From a coherent start, in whatever order the servers put and evict keys and the posted
  -- writes go through: when no write is posted any more, every server's copy of another
  -- server's table agrees with that table.
  pub copies_agree :
      {c d : Cluster api}
      → IsCoherent api n c
      → Reach c d
      → ((s : ℕ) → s < n → d.pending s ≡ [])
      → (me i key : ℕ) → me < n
      → i < n
      → entry d.memory i me key ≡ entry d.memory me me key
  copies_agree {c} {d} v r quiet me i key hm hi = elim (ℕ_discrete i me) [
    | yes e ↦ rw e
    | no ne ↦ elim ((Reach-IsCoherent v r).copied me i key hm hi ne) [
      | inl e ↦ e
      | inr p ↦ absurd (subst (Posted (request api n me i key)) (quiet me hm) p)
    ]
  ]

  drain-IsCoherent :
      (me : ℕ) (rs : List Request) (c : Cluster api)
      → me < n
      → c.pending me ≡ rs
      → IsCoherent api n c
      → (d : Cluster api) × (drain api n me rs c ≡ ok d)
        × IsCoherent api n d
        × (d.pending me ≡ [])
        × ((s : ℕ) → s ≢ me → d.pending s ≡ c.pending s)
  unfolding drain
  drain-IsCoherent me [] c lt e v = (c, refl, v, e, λ s h. refl)
  drain-IsCoherent me (r ∷ rs) c lt e v =
      let (i, run, v') = transfer-IsCoherent me [] rs r c lt e v in
      let (d, rest, w, none_left, others) =
        drain-IsCoherent me rs (transferred me i r rs c) lt (ground arith) v' in
      (d, rw run rest, w, none_left, λ s h. others s h ∙ ground arith)

  -- `execute_pending` on a server of a coherent cluster succeeds, leaves the cluster coherent and
  -- the server's queue empty, and does not touch the queues of the others.
  pub execute_pending-IsCoherent :
      (me : ℕ) (c : Cluster api)
      → me < n
      → IsCoherent api n c
      → (d : Cluster api) × (execute_pending api n me c ≡ ok d)
        × IsCoherent api n d
        × (d.pending me ≡ [])
        × ((s : ℕ) → s ≢ me → d.pending s ≡ c.pending s)
  unfolding execute_pending
  execute_pending-IsCoherent me c lt v = drain-IsCoherent me (c.pending me) c lt refl v
