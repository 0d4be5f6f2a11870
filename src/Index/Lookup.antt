-- ===== src/Index/Lookup.antt =====
-- Which server `read_callback` asks for a key, and what `update_local_key` does to later lookups.
use twig_kv.Common.{
  ℕ, zero, suc, ◌+◌, ◌<◌, ◌≤◌, ◌≡◌, ◌≢◌, refl, sym, ◌∙◌, inl, inr, true, false, not, none, some,
  arith, ◌==◌, Option, Option-cases, Bool-cases, if◌then◌else◌, ◌&&◌, ltb, leb, ℕ_discrete,
}
use twig_kv.Index.Api.{IndexApi, IndexLaws}
use twig_kv.Index.Tables.{
  is_invalid, find_remote, read_callback, update_one, update_loop, update_local_key,
}

module _ (api : IndexApi) (n : ℕ) where
  open api use {Memory, CacheIndex, entry, key_value_ptr_invalid}

  -- What a lookup from server `i` on answers: the first other server with a valid entry, if any.
  pub record IsFirst (me key i : ℕ) (mem : Memory) (s : ℕ) (e : CacheIndex) : Type 0 where
    pub lower : i ≤ s
    pub apart : s ≢ me
    pub read : entry mem me s key ≡ e
    pub valid : is_invalid api n e ≡ false
    pub skipped : (j : ℕ) → i ≤ j → j < s → j ≢ me → is_invalid api n (entry mem me j key) ≡ true

  widen :
      (me key i : ℕ) (mem : Memory) (s : ℕ) (e : CacheIndex)
      → (i ≢ me → is_invalid api n (entry mem me i key) ≡ true)
      → IsFirst me key (i + 1) mem s e
      → IsFirst me key i mem s e
  widen me key i mem s e skip f = record {
    lower = omega (arith, f.lower);
    apart = f.apart;
    read = f.read;
    valid = f.valid;
    skipped = λ j lo hi ne. elim (ℕ_discrete i j) [
      | yes same ↦ rw (← same) (skip (λ q. ne (sym same ∙ q)))
      | no other ↦ f.skipped j (omega arith) hi ne
    ];
  }

  find_remote-some :
      (me key rounds i : ℕ) (mem : Memory) (s : ℕ) (e : CacheIndex)
      → find_remote api n me key rounds i mem ≡ some (s, e)
      → IsFirst me key i mem s e × (s < i + rounds)
  unfolding find_remote
  find_remote-some me key zero i mem s e h = cc
  find_remote-some me key (suc rounds) i mem s e h = elim (Bool-cases (i == me)) [
    | inl own ↦
        let (f, hi) = find_remote-some me key rounds (i + 1) mem s e (ground arith) in
        (widen me key i mem s e (λ ne. absurd (ne (ground arith))) f, omega arith)
    | inr other ↦ elim (Bool-cases (is_invalid api n (entry mem me i key))) [
      | inl bad ↦
          let (f, hi) = find_remote-some me key rounds (i + 1) mem s e (ground arith) in
          (widen me key i mem s e (λ _. bad) f, omega arith)
      | inr good ↦
          let es : i ≡ s = ground arith in
          let ee : entry mem me i key ≡ e = ground arith in
          (
            record {
              lower = omega arith;
              apart = ground arith;
              read = rw (← es) ee;
              valid = rw (← ee) good;
              skipped = λ j lo hi ne. absurd (omega arith);
            },
            omega arith,
          )
    ]
  ]

  find_remote-none :
      (me key rounds i : ℕ) (mem : Memory)
      → find_remote api n me key rounds i mem ≡ none
      → (j : ℕ) → i ≤ j
      → j < i + rounds
      → j ≢ me
      → is_invalid api n (entry mem me j key) ≡ true
  unfolding find_remote
  find_remote-none me key zero i mem h j lo hi ne = absurd (omega arith)
  find_remote-none me key (suc rounds) i mem h j lo hi ne = elim (ℕ_discrete i j) [
    | yes e ↦ rw (← e) (ground arith)
    | no apart ↦
        find_remote-none me key rounds (i + 1) mem (ground arith) j (omega arith) (omega arith) ne
  ]

  -- A lookup only reads the server's own copies at the key.
  find_remote_congr :
      (me key rounds i : ℕ) (mem mem' : Memory)
      → ((t : ℕ) → entry mem' me t key ≡ entry mem me t key)
      → find_remote api n me key rounds i mem' ≡ find_remote api n me key rounds i mem
  unfolding find_remote
  find_remote_congr me key zero i mem mem' h = refl
  find_remote_congr me key (suc rounds) i mem mem' h =
      rw (h i, find_remote_congr me key rounds (i + 1) mem mem' h)

  -- What an answer says: the first other server with a valid entry for the key, or no such server.
  abbrev pub IsAnswer : ℕ → ℕ → Memory → Option (ℕ × CacheIndex) → Type 0
  IsAnswer me key mem (some (s, e)) = IsFirst me key 0 mem s e × (s < n)
  IsAnswer me key mem none = (j : ℕ) → j < n → j ≢ me → is_invalid api n (entry mem me j key) ≡ true

  -- `read_callback` reads from the first other server whose copy has a valid entry for the key, and
  -- answers `false` only if no copy has one.
  pub read_callback_lem :
      (me key : ℕ) (mem : Memory) → IsAnswer me key mem (read_callback api n me key mem)
  unfolding read_callback
  read_callback_lem me key mem = elim (Option-cases (find_remote api n me key n 0 mem)) [
    | inl e ↦ rw e (λ j hi ne. find_remote-none me key n 0 mem e j (omega arith) (omega arith) ne)
    | inr ((s, c), e) ↦
        rw e (let (f, hi) = find_remote-some me key n 0 mem s c e in (f, omega arith))
  ]

  find_remote-invalid :
      (me key rounds i : ℕ) (mem : Memory)
      → ((j : ℕ) → i ≤ j → j < i + rounds → j ≢ me → is_invalid api n (entry mem me j key) ≡ true)
      → find_remote api n me key rounds i mem ≡ none
  unfolding find_remote
  find_remote-invalid me key zero i mem h = refl
  find_remote-invalid me key (suc rounds) i mem h = ground (
    arith,
    h i (omega arith) (omega arith),
    find_remote-invalid me key rounds (i + 1) mem
        (λ j lo hi ne. h j (omega arith) (omega arith) ne),
  )

module _ (api : IndexApi) (laws : IndexLaws api) (n : ℕ) where
  open api use {Memory, entry, key_value_ptr_invalid, invalid_cache_index}
  open laws use {entry-store, offset-invalid}

  update_loop_lem :
      (me expected key rounds i : ℕ) (mem : Memory) (s t k : ℕ)
      → entry (update_loop api n me expected key rounds i mem) s t k ≡ (
          if s == me && (leb i t && ltb t (i + rounds)) && (not (t == me) && k == key)
          then entry mem me me expected
          else entry mem s t k)
  unfolding update_loop
  update_loop_lem me expected key zero i mem s t k = ground arith
  update_loop_lem me expected key (suc rounds) i mem s t k =
      update_loop_lem me expected key rounds (i + 1) (update_one api n me expected key i mem) s t k
      ∙ ground (
        arith,
        entry-store mem me i key (entry mem me me expected) s t k,
        entry-store mem me i key (entry mem me me expected) me me expected,
      )

  -- `update_local_key`, which the server calls when the entry of another server for `expected`
  -- led to another valid key `key`: if the server's own entry for `expected` is invalid, a
  -- later lookup of `expected` is led to the same place again, and a lookup of `key` finds no
  -- server any more.
  pub read_callback-update_local_key :
      (me expected key : ℕ) (mem : Memory)
      → expected ≢ key
      → key ≢ key_value_ptr_invalid
      → is_invalid api n (entry mem me me expected) ≡ true
      → let mem' = update_local_key api n me expected key mem in
        (read_callback api n me expected mem' ≡ read_callback api n me expected mem)
        × (read_callback api n me key mem' ≡ none)
  unfolding read_callback update_local_key
  read_callback-update_local_key me expected key mem ne ptr bad = (
    find_remote_congr api n me expected n 0 mem _
        (λ t. ground (arith, update_loop_lem me expected key n 0 mem me t expected)),
    find_remote-invalid api n me key n 0 _
        (λ j lo hi other. ground (arith, update_loop_lem me expected key n 0 mem me j key)),
  )
