-- ===== src/Index/Coherence/Posting.antt =====
-- A call that posts the requests to all other servers keeps the cluster coherent.
use twig_kv.Common.{
  ℕ, ◌<◌, ◌≡◌, ◌≢◌, sym, ◌∙◌, ◌⊎◌, inl, inr, true, List, arith, ◌==◌, Bool-cases, ℕ_discrete,
}
use twig_kv.Index.Api.{IndexApi, IndexLaws}
use twig_kv.Index.Tables.{Request, Cluster, request}
use twig_kv.Index.Publish.{requests, appended, Posted, requests-Posted}
use twig_kv.Index.Coherence.{
  Posted-append_left, Posted-append_right, AllAddressed, AllAddressed-append, requests-AllAddressed,
  IsCoherent,
}

module _ (api : IndexApi) (laws : IndexLaws api) (n : ℕ) where
  open api use {entry, store}

  -- An own entry of `me` changed at most, and the requests to all other servers were posted.
  pub published :
      (me key : ℕ) (c d : Cluster api)
      → ((s t k : ℕ)
          → ((s ≡ me) × (t ≡ me) × (k ≡ key) → ⊥)
          → entry d.memory s t k ≡ entry c.memory s t k)
      → ((s : ℕ) → d.pending s ≡ appended api n me (requests api n me key n 0) c.pending s)
      → IsCoherent api n c
      → IsCoherent api n d
  published me key c d others queues v = record {
    addressed = λ s h. rw (queues s) (addressed_at s h);
    copied = λ s i k hs hi ne. copied_at s i k hs hi ne;
  }
    where
      rs : List Request
      rs = requests api n me key n 0

      addressed_at : (s : ℕ) → s < n → AllAddressed api n s (appended api n me rs c.pending s)
      addressed_at s h = elim (Bool-cases (s == me)) [
        | inl same ↦
            let e : s ≡ me = ground arith in
            rw same (
              AllAddressed-append api n s (c.pending s) rs (v.addressed s h)
                (rw e (requests-AllAddressed api n me key n 0 (omega arith))))
        | inr other ↦ rw other (v.addressed s h)
      ]

      kept : (r : Request) (s : ℕ) → Posted r (c.pending s) → Posted r (d.pending s)
      kept r s h = rw (queues s) (elim (Bool-cases (s == me)) [
        | inl same ↦ rw same (Posted-append_left r (c.pending s) rs h)
        | inr other ↦ rw other h
      ])

      unchanged :
          (s i k : ℕ)
          → s < n
          → i < n
          → i ≢ s
          → ((s ≡ me) × (k ≡ key) → ⊥)
          → (entry d.memory i s k ≡ entry d.memory s s k)
            ⊎ Posted (request api n s i k) (d.pending s)
      unchanged s i k hs hi ne no_write = elim (v.copied s i k hs hi ne) [
        | inl e ↦ inl (
            others i s k (λ h. ne (h.0 ∙ sym h.1))
            ∙ e
            ∙ sym (others s s k (λ h. no_write (h.1, h.2))))
        | inr p ↦ inr (kept _ s p)
      ]

      copied_at :
          (s i k : ℕ)
          → s < n
          → i < n
          → i ≢ s
          → (entry d.memory i s k ≡ entry d.memory s s k)
            ⊎ Posted (request api n s i k) (d.pending s)
      copied_at s i k hs hi ne = elim (ℕ_discrete s me) [
        | no ns ↦ unchanged s i k hs hi ne (λ h. ns h.0)
        | yes es ↦ elim (ℕ_discrete k key) [
          | no nk ↦ unchanged s i k hs hi ne (λ h. nk h.1)
          | yes ek ↦
              let same : (s == me) ≡ true = ground arith in
              inr (
                rw (queues s, same)
                  (Posted-append_right _ (c.pending s) rs (
                    rw (es, ek)
                      (requests-Posted api n me key n 0 i (omega arith) (omega arith)
                        (λ q. ne (q ∙ sym es))))))
        ]
      ]
