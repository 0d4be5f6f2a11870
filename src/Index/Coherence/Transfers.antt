-- ===== src/Index/Coherence/Transfers.antt =====
-- A posted write that goes through keeps the cluster coherent.
use twig_kv.Common.{
  ℕ, ◌+◌, ◌-◌, ◌*◌, ◌<◌, ◌≡◌, ◌≢◌, sym, ap, subst, ◌∙◌, ◌⊎◌, inl, inr, List, ◌∷◌, ◌++◌, ok, arith,
  ◌==◌, Bool-cases, if◌then◌else◌, ◌&&◌, ℕ_discrete,
}
use twig_kv.Index.Api.{IndexApi, IndexLaws}
use twig_kv.Index.Connect.{get_elem?-connect_qps}
use twig_kv.Index.Tables.{Request, Cluster, request, transfer, cache_indexes_port}
use twig_kv.Index.Publish.{Posted}
use twig_kv.Index.Coherence.{Posted-middle, AllAddressed, AllAddressed-middle, IsCoherent}

module _ (api : IndexApi) (laws : IndexLaws api) (n : ℕ) where
  open api use {entry, store}
  open laws use {entry-store}

  pub transfer_lem :
      (me i : ℕ) (r : Request) (c : Cluster api)
      → me < n
      → i < n
      → r.rdma_index ≡ me * n + i
      → transfer api n me r c
        ≡ ok (record c {
          memory = store c.memory i me r.key_index (entry c.memory me me r.key_index);
        })
  unfolding transfer
  transfer_lem me i r c hm hi e =
      let back : cache_indexes_port + me - cache_indexes_port ≡ me = omega arith in
      rw (transfer, e, get_elem?-connect_qps n cache_indexes_port me i hm hi, back)

  pub completed :
      (me i : ℕ) (before after : List Request) (r : Request) (c d : Cluster api)
      → me < n
      → i < n
      → i ≢ me
      → r.rdma_index ≡ me * n + i
      → c.pending me ≡ before ++ r ∷ after
      → ((s t k : ℕ)
          → entry d.memory s t k ≡ (
              if i == s && (me == t && r.key_index == k)
              then entry c.memory me me r.key_index
              else entry c.memory s t k))
      → ((s : ℕ) → d.pending s ≡ (if s == me then before ++ after else c.pending s))
      → IsCoherent api n c
      → IsCoherent api n d
  completed me i before after r c d hm hi ne ei eq mem queues v = record {
    addressed = addressed_at;
    copied = copied_at;
  }
    where
      key : ℕ
      key = r.key_index

      addressed_at : (s : ℕ) → s < n → AllAddressed api n s (d.pending s)
      addressed_at s h = rw (queues s) (elim (Bool-cases (s == me)) [
        | inl same ↦
            let e : s ≡ me = ground arith in
            rw (same, e)
              (AllAddressed-middle api n me r before after
                (subst (AllAddressed api n me) eq (v.addressed me hm))).1
        | inr other ↦ rw other (v.addressed s h)
      ])

      -- A request other than `r` is still posted.
      kept :
          (j s k : ℕ)
          → ((s ≡ me) × (j ≡ i) × (k ≡ key) → ⊥)
          → Posted (request api n s j k) (c.pending s)
          → Posted (request api n s j k) (d.pending s)
      kept j s k apart p = rw (queues s) (elim (Bool-cases (s == me)) [
        | inr other ↦ rw other p
        | inl same ↦
            let e : s ≡ me = ground arith in
            rw same
              (elim (Posted-middle _ r before after
                (subst (Posted (request api n s j k)) (rw e eq) p)) [
                  | inr q ↦ q
                  | inl q ↦
                      let x : me * n + i ≡ me * n + j =
                        sym ei ∙ ap (λ t. t.rdma_index) q ∙ ap (λ t. t * n + j) e in
                      absurd (apart (e, omega arith, sym (ap (λ t. t.key_index) q)))
                ])
      ])

      missed :
          (s j k : ℕ)
          → s < n
          → j < n
          → j ≢ s
          → ((s ≡ me) × (j ≡ i) × (k ≡ key) → ⊥)
          → (entry d.memory j s k ≡ entry d.memory s s k)
            ⊎ Posted (request api n s j k) (d.pending s)
      missed s j k hs hj nj apart = elim (v.copied s j k hs hj nj) [
        | inl e ↦ inl (ground (arith, mem j s k, mem s s k, apart))
        | inr p ↦ inr (kept j s k apart p)
      ]

      copied_at :
          (s j k : ℕ)
          → s < n
          → j < n
          → j ≢ s
          → (entry d.memory j s k ≡ entry d.memory s s k)
            ⊎ Posted (request api n s j k) (d.pending s)
      copied_at s j k hs hj nj = elim (ℕ_discrete s me) [
        | no ns ↦ missed s j k hs hj nj (λ h. ns h.0)
        | yes es ↦ elim (ℕ_discrete j i) [
          | no nij ↦ missed s j k hs hj nj (λ h. nij h.1)
          | yes eij ↦ elim (ℕ_discrete k key) [
            | no nk ↦ missed s j k hs hj nj (λ h. nk h.2)
            | yes ek ↦ inl (ground (arith, mem j s k, mem s s k))
          ]
        ]
      ]
