-- ===== src/Index/Publish.antt =====
-- What `write_remote` and `dealloc_remote` of `CacheIndexes` post, and what they leave alone.
use twig_kv.Common.{
  ℕ, zero, suc, ◌+◌, ◌<◌, ◌≤◌, ◌≡◌, ◌≢◌, refl, ◌∙◌, ◌⊎◌, inl, inr, true, false, List, [], ◌∷◌, ◌++◌,
  append-nil, append_assoc, ok, panic, arith, Bool-cases, ◌==◌, if◌then◌else◌, ℕ_discrete,
}
use twig_kv.Index.Api.{IndexApi, IndexLaws}
use twig_kv.Index.Tables.{
  Request, Cluster, is_invalid, request, enqueue, write_loop, write_remote, dealloc_one,
  dealloc_loop, dealloc_remote,
}

-- A request stands in a queue.
abbrev pub Posted : Request → List Request → Type 0
Posted r [] = ⊥
Posted r (q ∷ qs) = (q ≡ r) ⊎ Posted r qs

module _ (api : IndexApi) (n : ℕ) where
  open api use {entry, invalid_cache_index}

  -- One request for each server but `me`, from server `i` on.
  unfoldable pub requests : ℕ → ℕ → ℕ → ℕ → List Request
  requests me key zero i = []
  requests me key (suc rounds) i =
      let rest = requests me key rounds (i + 1) in
      if me == i then rest else request api n me i key ∷ rest

  -- The queue of server `s` when `me` has added `rs` to its own.
  abbrev pub appended : ℕ → List Request → (ℕ → List Request) → ℕ → List Request
  appended me rs queues s = if s == me then queues s ++ rs else queues s

  appended-appended :
      (me : ℕ) (xs ys : List Request) (queues : ℕ → List Request) (s : ℕ)
      → appended me ys (appended me xs queues) s ≡ appended me (xs ++ ys) queues s
  appended-appended me xs ys queues s = ground (arith, append_assoc (queues s) xs ys)

  appended-nil : (me : ℕ) (queues : ℕ → List Request) (s : ℕ) → queues s ≡ appended me [] queues s
  appended-nil me queues s = ground (arith, append-nil (queues s))

  write_loop_lem :
      (me key rounds i : ℕ) (c : Cluster api)
      → is_invalid api n (entry c.memory me me key) ≡ false
      → (c' : Cluster api) × (write_loop api n me key rounds i c ≡ ok c')
        × (c'.memory ≡ c.memory)
        × ((s : ℕ) → c'.pending s ≡ appended me (requests me key rounds i) c.pending s)
  unfolding write_loop requests
  write_loop_lem me key zero i c valid = (c, refl, refl, appended-nil me c.pending)
  write_loop_lem me key (suc rounds) i c valid = elim (Bool-cases (me == i)) [
    | inl same ↦
        let (c', run, mem, queues) = write_loop_lem me key rounds (i + 1) c valid in
        (c', rw same run, mem, λ s. rw same (queues s))
    | inr other ↦
        let r = request api n me i key in
        let (c', run, mem, queues) =
          write_loop_lem me key rounds (i + 1) (enqueue api n me r c) valid in
        (
          c',
          rw (other, valid) run,
          mem,
          λ s. rw other (
              queues s
              ∙ appended-appended me (r ∷ []) (requests me key rounds (i + 1)) c.pending s),
        )
  ]

  dealloc_loop_pending :
      (me key rounds i : ℕ) (c : Cluster api) (s : ℕ)
      → (dealloc_loop api n me key rounds i c).pending s
        ≡ appended me (requests me key rounds i) c.pending s
  unfolding dealloc_loop requests
  dealloc_loop_pending me key zero i c s = appended-nil me c.pending s
  dealloc_loop_pending me key (suc rounds) i c s = elim (Bool-cases (me == i)) [
    | inl same ↦ rw (same, dealloc_loop) (dealloc_loop_pending me key rounds (i + 1) c s)
    | inr other ↦
        rw (other, dealloc_loop)
          (dealloc_loop_pending me key rounds (i + 1) _ s
            ∙ appended-appended me (request api n me i key ∷ []) (requests me key rounds (i + 1))
                c.pending s)
  ]

  -- The other entries of every table are left alone.
  dealloc_loop_other :
      IndexLaws api
      → (me key rounds i : ℕ) (c : Cluster api) (s t k : ℕ) → ((s ≡ me) × (t ≡ me) × (k ≡ key) → ⊥)
      → entry (dealloc_loop api n me key rounds i c).memory s t k ≡ entry c.memory s t k
  unfolding dealloc_loop
  dealloc_loop_other laws me key zero i c s t k h = refl
  dealloc_loop_other laws me key (suc rounds) i c s t k h =
      dealloc_loop_other laws me key rounds (i + 1) (dealloc_one api n me key i c) s t k h
      ∙ ground (arith, laws.entry-store c.memory me me key invalid_cache_index s t k, h)

  -- The server's own entry stays invalid.
  dealloc_loop_own :
      IndexLaws api
      → (me key rounds i : ℕ) (c : Cluster api) → entry c.memory me me key ≡ invalid_cache_index
      → entry (dealloc_loop api n me key rounds i c).memory me me key ≡ invalid_cache_index
  unfolding dealloc_loop
  dealloc_loop_own laws me key zero i c h = h
  dealloc_loop_own laws me key (suc rounds) i c h =
      dealloc_loop_own laws me key rounds (i + 1) (dealloc_one api n me key i c)
        (ground (arith, laws.entry-store c.memory me me key invalid_cache_index me me key))

  dealloc_loop_sets :
      IndexLaws api
      → (me key rounds i j : ℕ) (c : Cluster api) → i ≤ j
      → j < i + rounds
      → j ≢ me
      → entry (dealloc_loop api n me key rounds i c).memory me me key ≡ invalid_cache_index
  unfolding dealloc_loop
  dealloc_loop_sets laws me key zero i j c lo hi other = absurd (omega arith)
  dealloc_loop_sets laws me key (suc rounds) i j c lo hi other = elim (ℕ_discrete me i) [
    | yes same ↦
        dealloc_loop_sets laws me key rounds (i + 1) j (dealloc_one api n me key i c) (omega arith)
          (omega arith) other
    | no apart ↦
        dealloc_loop_own laws me key rounds (i + 1) (dealloc_one api n me key i c)
          (ground (arith, laws.entry-store c.memory me me key invalid_cache_index me me key))
  ]

  write_loop_panics :
      (me key rounds i j : ℕ) (c : Cluster api)
      → i ≤ j
      → j < i + rounds
      → j ≢ me
      → is_invalid api n (entry c.memory me me key) ≡ true
      → write_loop api n me key rounds i c ≡ panic
  unfolding write_loop
  write_loop_panics me key zero i j c lo hi other bad = absurd (omega arith)
  write_loop_panics me key (suc rounds) i j c lo hi other bad = elim (Bool-cases (me == i)) [
    | inl same ↦
        let apart : i ≢ j = ground arith in
        rw same (write_loop_panics me key rounds (i + 1) j c (omega arith) (omega arith) other bad)
    | inr apart ↦ rw (apart, bad)
  ]

  -- Some other server.
  abbrev another : ℕ → ℕ
  another me = if me == 0 then 1 else 0

  -- With two servers or more, the first round for another server makes the own entry invalid.
  dealloc_remote_own :
      IndexLaws api
      → (me key : ℕ) (c : Cluster api) → me < n
      → 2 ≤ n
      → entry (dealloc_remote api n me key c).memory me me key ≡ invalid_cache_index
  unfolding dealloc_remote
  dealloc_remote_own laws me key c lt two =
      dealloc_loop_sets laws me key n 0 (another me) c (ground arith) (ground arith) (ground arith)

  pub dealloc_remote_other :
      IndexLaws api
      → (me key : ℕ) (c : Cluster api) (s t k : ℕ) → ((s ≡ me) × (t ≡ me) × (k ≡ key) → ⊥)
      → entry (dealloc_remote api n me key c).memory s t k ≡ entry c.memory s t k
  unfolding dealloc_remote
  dealloc_remote_other laws me key = dealloc_loop_other laws me key n 0

  pub dealloc_remote_pending :
      (me key : ℕ) (c : Cluster api) (s : ℕ)
      → (dealloc_remote api n me key c).pending s ≡ appended me (requests me key n 0) c.pending s
  unfolding dealloc_remote
  dealloc_remote_pending me key = dealloc_loop_pending me key n 0

  -- If the server's own entry is valid, `write_remote` succeeds, changes no table, and appends to
  -- the server's queue the requests to all other servers in order, and nothing to the others'.
  pub write_remote_lem :
      (me key : ℕ) (c : Cluster api)
      → is_invalid api n (entry c.memory me me key) ≡ false
      → (c' : Cluster api) × (write_remote api n me key c ≡ ok c')
        × (c'.memory ≡ c.memory)
        × ((s : ℕ) → c'.pending s ≡ appended me (requests me key n 0) c.pending s)
  unfolding write_remote
  write_remote_lem me key c valid = write_loop_lem me key n 0 c valid

  -- For a server among two or more whose memory keeps what is stored in it, `dealloc_remote`
  -- makes the server's own entry invalid and changes no other entry of any table, and it
  -- appends to the server's queue the requests to all other servers in order, and nothing to
  -- the others'.
  pub dealloc_remote_lem :
      IndexLaws api
      → (me key : ℕ) (c : Cluster api) → me < n
      → 2 ≤ n
      → let d = dealloc_remote api n me key c in
        (entry d.memory me me key ≡ invalid_cache_index)
        × ((s t k : ℕ)
            → ((s ≡ me) × (t ≡ me) × (k ≡ key) → ⊥)
            → entry d.memory s t k ≡ entry c.memory s t k)
        × ((s : ℕ) → d.pending s ≡ appended me (requests me key n 0) c.pending s)
  dealloc_remote_lem laws me key c lt two = (
    dealloc_remote_own laws me key c lt two,
    dealloc_remote_other laws me key c,
    dealloc_remote_pending me key c,
  )

  -- Without a valid entry of its own for the key, a server among two or more stops in `panic`
  -- in `write_remote`.
  pub write_remote_panics :
      (me key : ℕ) (c : Cluster api)
      → me < n
      → 2 ≤ n
      → is_invalid api n (entry c.memory me me key) ≡ true
      → write_remote api n me key c ≡ panic
  unfolding write_remote
  write_remote_panics me key c lt two bad =
      write_loop_panics me key n 0 (another me) c (ground arith) (ground arith) (ground arith) bad

  -- Every other server gets a request.
  pub requests-Posted :
      (me key rounds i j : ℕ)
      → i ≤ j
      → j < i + rounds
      → j ≢ me
      → Posted (request api n me j key) (requests me key rounds i)
  unfolding requests
  requests-Posted me key zero i j lo hi other = absurd (omega arith)
  requests-Posted me key (suc rounds) i j lo hi other = elim (ℕ_discrete i j) [
    | yes e ↦ ground (arith, other, e)
    | no ne ↦
        ground (arith, requests-Posted me key rounds (i + 1) j (omega arith) (omega arith) other)
  ]
