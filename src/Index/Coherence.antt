-- ===== src/Index/Coherence.antt =====
-- The servers run `write_remote` and `dealloc_remote` while posted writes go through one at a time,
-- in any order: in the end every copy of a table agrees with the table.
pub mod Posting
pub mod Transfers
pub mod Reach
use twig_kv.Common.{
  ℕ, zero, suc, ◌+◌, ◌-◌, ◌*◌, ◌<◌, ◌≤◌, ◌≡◌, ◌≢◌, refl, sym, ap, subst, ◌∙◌, ◌⊎◌, inl, inr, true,
  false, List, [], ◌∷◌, ◌++◌, ok, arith, ◌==◌, Bool-cases, if◌then◌else◌, ◌&&◌, ℕ_discrete, some,
  get_elem?,
}
use twig_kv.Index.Api.{IndexApi, IndexLaws}
use twig_kv.Index.Connect.{connect_qps, get_elem?-connect_qps}
use twig_kv.Index.Tables.{
  Request, Cluster, is_invalid, request, write_remote, dealloc_remote, transfer, cache_indexes_port,
}
use twig_kv.Index.Publish.{
  requests, appended, write_remote_lem, dealloc_remote_lem, Posted, requests-Posted,
}

pub Posted-append_left : (r : Request) (xs ys : List Request) → Posted r xs → Posted r (xs ++ ys)
Posted-append_left r [] ys h = absurd h
Posted-append_left r (x ∷ xs) ys (inl e) = inl e
Posted-append_left r (x ∷ xs) ys (inr h) = inr (Posted-append_left r xs ys h)

pub Posted-append_right : (r : Request) (xs ys : List Request) → Posted r ys → Posted r (xs ++ ys)
Posted-append_right r [] ys h = h
Posted-append_right r (x ∷ xs) ys h = inr (Posted-append_right r xs ys h)

-- Taking one request out of a queue leaves the others.
pub Posted-middle :
    (r q : Request) (xs ys : List Request) → Posted r (xs ++ q ∷ ys) → (q ≡ r) ⊎ Posted r (xs ++ ys)
Posted-middle r q [] ys (inl e) = inl e
Posted-middle r q [] ys (inr h) = inr h
Posted-middle r q (x ∷ xs) ys (inl e) = inr (inl e)
Posted-middle r q (x ∷ xs) ys (inr h) = elim (Posted-middle r q xs ys h) [
  | inl e ↦ inl e
  | inr k ↦ inr (inr k)
]

module _ (api : IndexApi) (n : ℕ) where
  open api use {CacheIndex, entry, store}

  -- A request of server `me` names the connection to another server.
  abbrev pub Addressed : ℕ → Request → Type 0
  Addressed me r = (i : ℕ) × (i < n) × (i ≢ me) × (r.rdma_index ≡ me * n + i)

  abbrev pub AllAddressed : ℕ → List Request → Type 0
  AllAddressed me [] = Unit {0}
  AllAddressed me (r ∷ rs) = Addressed me r × AllAddressed me rs

  pub AllAddressed-append :
      (me : ℕ) (xs ys : List Request)
      → AllAddressed me xs
      → AllAddressed me ys
      → AllAddressed me (xs ++ ys)
  AllAddressed-append me [] ys hx hy = hy
  AllAddressed-append me (x ∷ xs) ys hx hy = (hx.0, AllAddressed-append me xs ys hx.1 hy)

  -- Without the request in the middle, and that request.
  pub AllAddressed-middle :
      (me : ℕ) (r : Request) (xs ys : List Request)
      → AllAddressed me (xs ++ r ∷ ys)
      → Addressed me r × AllAddressed me (xs ++ ys)
  AllAddressed-middle me r [] ys h = h
  AllAddressed-middle me r (x ∷ xs) ys h =
      let (here, rest) = AllAddressed-middle me r xs ys h.1 in (here, (h.0, rest))

  pub requests-AllAddressed :
      (me key rounds i : ℕ) → i + rounds ≤ n → AllAddressed me (requests api n me key rounds i)
  unfolding requests
  requests-AllAddressed me key zero i h = tt
  requests-AllAddressed me key (suc rounds) i h = elim (Bool-cases (me == i)) [
    | inl same ↦ rw same (requests-AllAddressed me key rounds (i + 1) (omega arith))
    | inr other ↦ rw other (
      (i, omega arith, ground arith, refl),
      requests-AllAddressed me key rounds (i + 1) (omega arith),
    )
  ]

  -- The store of a value in a server's own table, by the cache that the index describes.
  abbrev pub fill : ℕ → ℕ → CacheIndex → Cluster api → Cluster api
  fill me key e c = record c { memory = store c.memory me me key e }

  pub data Step (c : Cluster api) : Cluster api → Type 0 where
    -- a key is put into a server's cache, with its callback on writes
    put :
        (me key : ℕ) (e : CacheIndex) {d : Cluster api}
        → me < n
        → is_invalid api n e ≡ false
        → write_remote api n me key (fill me key e c) ≡ ok d
        → Step c d
    -- a key leaves a server's cache, with its callback on evictions
    evict : (me key : ℕ) {d : Cluster api} → me < n → d ≡ dealloc_remote api n me key c → Step c d
    -- a posted write goes through
    complete :
        (me : ℕ) (before after : List Request) (r : Request) {d : Cluster api}
        → me < n
        → c.pending me ≡ before ++ r ∷ after
        → transfer api n me r
            (record c { pending = λ s. if s == me then before ++ after else c.pending s })
          ≡ ok d
        → Step c d

  -- Every entry of a copy is that of the table, or a write of it is posted.
  pub record IsCoherent (c : Cluster api) : Type 0 where
    pub addressed : (me : ℕ) → me < n → AllAddressed me (c.pending me)
    pub copied :
        (me i key : ℕ)
        → me < n
        → i < n
        → i ≢ me
        → (entry c.memory i me key ≡ entry c.memory me me key)
          ⊎ Posted (request api n me i key) (c.pending me)
