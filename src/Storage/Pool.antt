-- ===== src/Storage/Pool.antt =====
-- No token and no buffer is lost or used twice, and the reads never run out of tokens.
use twig_kv.Common.{
  ℕ, zero, suc, ◌+◌, ◌≤◌, ◌≡◌, refl, ap, List, [], ◌∷◌, ◌++◌, Option, none, some, ok, arith, ◌==◌,
  ltb, leb, ◌&&◌, if◌then◌else◌, length, length-append, tally, tally-append,
}
use twig_kv.Storage.{
  PendingRead, Storage, numbers, new, get_request_token, free_request_token, read, execute_loop,
  execute_pending,
}

-- How often a number stands in a queue.
abbrev pub occurs : ℕ → List ℕ → ℕ
occurs i xs = tally (λ x. if x == i then 1 else 0) xs

-- How many queues hold token `i`, and buffer `i`.
abbrev pub token_count : ℕ → Storage → ℕ
token_count i s =
    occurs i s.free_request_token_queue
    + tally (λ r. if r.token == i then 1 else 0) s.pending_read_queue

abbrev pub buffer_count : ℕ → Storage → ℕ
buffer_count i s =
    occurs i s.free_queue + tally (λ r. if r.data_buffer == i then 1 else 0) s.pending_read_queue

-- Every token and every buffer is in one place, and there are as many tokens as buffers or more.
pub record IsPool (tokens queue_size : ℕ) (s : Storage) : Type 0 where
  pub one_token : (i : ℕ) → token_count i s ≡ (if ltb i tokens then 1 else 0)
  pub one_buffer : (i : ℕ) → buffer_count i s ≡ (if ltb i queue_size then 1 else 0)
  pub tokens_left : length s.free_request_token_queue + length s.pending_read_queue ≡ tokens
  pub buffers_left : length s.free_queue + length s.pending_read_queue ≡ queue_size

length-numbers : (n i : ℕ) → length (numbers n i) ≡ n
unfolding numbers
length-numbers zero i = refl
length-numbers (suc n) i = ap suc (length-numbers n (i + 1))

occurs-numbers : (n i j : ℕ) → occurs j (numbers n i) ≡ (if leb i j && ltb j (i + n) then 1 else 0)
unfolding numbers
occurs-numbers zero i j = ground arith
occurs-numbers (suc n) i j = ground (arith, occurs-numbers n (i + 1) j)

-- The queues that the constructors fill.
pub new-IsPool : (tokens queue_size : ℕ) → IsPool tokens queue_size (new tokens queue_size)
new-IsPool tokens queue_size = record {
  one_token = λ i. ground (arith, occurs-numbers tokens 0 i);
  one_buffer = λ i. ground (arith, occurs-numbers queue_size 0 i);
  tokens_left = omega (arith, length-numbers tokens 0);
  buffers_left = omega (arith, length-numbers queue_size 0);
}

-- What a call of `read` says: it waits, or a buffer was free and is now in use.
abbrev pub IsRead : ℕ → ℕ → Storage → Option Storage → Type 0
IsRead tokens queue_size s none = s.free_queue ≡ []
IsRead tokens queue_size s (some s') =
    IsPool tokens queue_size s'
    × (length s'.pending_read_queue ≡ length s.pending_read_queue + 1)
    × (length s'.free_queue + 1 ≡ length s.free_queue)

read_at :
    (tokens queue_size remote_index : ℕ) (ts bs : List ℕ) (ps : List PendingRead)
    → queue_size ≤ tokens
    → let s : Storage = record {
      free_request_token_queue = ts;
      free_queue = bs;
      pending_read_queue = ps;
    } in
      IsPool tokens queue_size s
      → (result : Option Storage) × (read remote_index s ≡ ok result)
        × IsRead tokens queue_size s result
unfolding read get_request_token
read_at tokens queue_size remote_index ts [] ps le v = (none, refl, refl)
read_at tokens queue_size remote_index [] (b ∷ bs) ps le v =
    absurd (omega (arith, v.tokens_left, v.buffers_left))
read_at tokens queue_size remote_index (t ∷ ts) (b ∷ bs) ps le v =
    let posted : PendingRead = record { data_buffer = b; token = t; remote_index = remote_index } in
    let more = length-append ps (posted ∷ []) in
    (
      some (record {
        free_request_token_queue = ts;
        free_queue = bs;
        pending_read_queue = ps ++ posted ∷ [];
      }),
      refl,
      (
        record {
          one_token = λ i. omega (
            arith,
            v.one_token i,
            tally-append (λ r. if r.token == i then 1 else 0) ps (posted ∷ []),
          );
          one_buffer = λ i. omega (
            arith,
            v.one_buffer i,
            tally-append (λ r. if r.data_buffer == i then 1 else 0) ps (posted ∷ []),
          );
          tokens_left = omega (arith, v.tokens_left, more);
          buffers_left = omega (arith, v.buffers_left, more);
        },
        omega (arith, more),
        omega arith,
      ),
    )

-- On a pool with at least as many tokens as buffers a read never stops for want of a token.
-- Either it waits, and then no buffer is free; or it posts one read with one of the free
-- buffers, and what it leaves is a pool again, in which no token and no buffer is lost or in two
-- places.
pub read-IsPool :
    (tokens queue_size remote_index : ℕ) (s : Storage)
    → queue_size ≤ tokens
    → IsPool tokens queue_size s
    → (result : Option Storage) × (read remote_index s ≡ ok result)
      × IsRead tokens queue_size s result
read-IsPool tokens queue_size remote_index s le v =
    read_at tokens queue_size remote_index s.free_request_token_queue s.free_queue
      s.pending_read_queue le v

execute_loop-IsPool :
    (tokens queue_size : ℕ) (rs : List PendingRead) (s : Storage)
    → s.pending_read_queue ≡ rs
    → IsPool tokens queue_size s
    → IsPool tokens queue_size (execute_loop rs s) × ((execute_loop rs s).pending_read_queue ≡ [])
unfolding execute_loop free_request_token
execute_loop-IsPool tokens queue_size [] s e v = (v, e)
execute_loop-IsPool tokens queue_size (r ∷ rs) s e v =
    execute_loop-IsPool tokens queue_size rs _ refl (record {
      one_token = λ i. omega (
        arith,
        v.one_token i,
        ap (tally (λ r. if r.token == i then 1 else 0)) e,
        tally-append (λ x. if x == i then 1 else 0) s.free_request_token_queue (r.token ∷ []),
      );
      one_buffer = λ i. omega (
        arith,
        v.one_buffer i,
        ap (tally (λ r. if r.data_buffer == i then 1 else 0)) e,
        tally-append (λ x. if x == i then 1 else 0) s.free_queue (r.data_buffer ∷ []),
      );
      tokens_left = omega (
        arith,
        v.tokens_left,
        ap length e,
        length-append s.free_request_token_queue (r.token ∷ []),
      );
      buffers_left =
          omega
            (arith, v.buffers_left, ap length e, length-append s.free_queue (r.data_buffer ∷ []));
    })

-- `execute_pending` on a pool leaves a pool with no read under way, in which all buffers are
-- free.
pub execute_pending-IsPool :
    (tokens queue_size : ℕ) (s : Storage)
    → IsPool tokens queue_size s
    → IsPool tokens queue_size (execute_pending s)
      × ((execute_pending s).pending_read_queue ≡ [])
      × (length (execute_pending s).free_queue ≡ queue_size)
unfolding execute_pending
execute_pending-IsPool tokens queue_size s v =
    let (w, none_left) = execute_loop-IsPool tokens queue_size s.pending_read_queue s refl v in
    (w, none_left, omega (arith, w.buffers_left, ap length none_left))
