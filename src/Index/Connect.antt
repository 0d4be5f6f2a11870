-- ===== src/Index/Connect.antt =====
-- The connections of a server: `RDMAData::connect` and the loop of the constructors of
-- `CacheIndexes` and `CacheIndexLogs`, which connects to every server once for each table.
use twig_kv.Common.{
  ℕ, zero, suc, ◌+◌, ◌*◌, ◌<◌, ◌≡◌, refl, ◌∙◌, List, [], ◌∷◌, ◌++◌, some, arith, length, get_elem?,
}

-- The far end of a queue pair: a server and the port that it accepted the connection on. The buffer
-- behind port `base + t` is the one that the server registered for table `t`.
pub record Endpoint : Type 0 where
  pub server : ℕ
  pub port : ℕ

-- `connect(port)`: servers `i`, `i + 1` and so on.
unfoldable pub connect_from : ℕ → ℕ → ℕ → List Endpoint
connect_from zero i port = []
connect_from (suc rounds) i port =
    record { server = i; port = port } ∷ connect_from rounds (i + 1) port

-- The loop over the tables: `connect(base + t)`.
unfoldable pub connect_all : ℕ → ℕ → ℕ → ℕ → List Endpoint
unfolding connect_from
connect_all n base zero t = []
connect_all n base (suc rounds) t = connect_from n 0 (base + t) ++ connect_all n base rounds (t + 1)

-- `connect_qps` when the constructor is done.
unfoldable pub connect_qps : ℕ → ℕ → List Endpoint
unfolding connect_all
connect_qps n base = connect_all n base n 0

length-connect_from : (n i port : ℕ) → length (connect_from n i port) ≡ n
unfolding connect_from
length-connect_from zero i port = refl
length-connect_from (suc n) i port = omega (arith, length-connect_from n (i + 1) port)

get_elem?-connect_from :
    (n i port j s : ℕ)
    → j < n
    → i + j ≡ s
    → get_elem? (connect_from n i port) j ≡ some (record { server = s; port = port })
unfolding connect_from
get_elem?-connect_from zero i port j s h e = elim h [ ]
get_elem?-connect_from (suc n) i port zero s h e = ground arith
get_elem?-connect_from (suc n) i port (suc j) s h e =
    get_elem?-connect_from n (i + 1) port j s (omega arith) (omega arith)

get_elem?-append_left {ℓ} :
    {A : Type ℓ} (xs ys : List A) (i : ℕ) → i < length xs → get_elem? (xs ++ ys) i ≡ get_elem? xs i
get_elem?-append_left [] ys i h = elim h [ ]
get_elem?-append_left (x ∷ xs) ys zero h = refl
get_elem?-append_left (x ∷ xs) ys (suc i) h = get_elem?-append_left xs ys i (omega arith)

get_elem?-append_right {ℓ} :
    {A : Type ℓ} (xs ys : List A) (i j : ℕ)
    → length xs + j ≡ i
    → get_elem? (xs ++ ys) i ≡ get_elem? ys j
get_elem?-append_right [] ys i j h = let e : i ≡ j = omega arith in rw e
get_elem?-append_right (x ∷ xs) ys zero j h = absurd (omega arith)
get_elem?-append_right (x ∷ xs) ys (suc i) j h = get_elem?-append_right xs ys i j (omega arith)

get_elem?-connect_all :
    (n base rounds t m i r : ℕ)
    → m < rounds
    → i < n
    → t + m ≡ r
    → get_elem? (connect_all n base rounds t) (m * n + i)
      ≡ some (record { server = i; port = base + r })
unfolding connect_all
get_elem?-connect_all n base zero t m i r hm hi e = elim hm [ ]
get_elem?-connect_all n base (suc rounds) t zero i r hm hi e =
    let at : 0 * n + i ≡ i = omega arith in
    let here : i < length (connect_from n 0 (base + t)) =
      omega (arith, length-connect_from n 0 (base + t)) in
    rw at (
      get_elem?-append_left (connect_from n 0 (base + t)) _ i here
      ∙ get_elem?-connect_from n 0 (base + t) i i hi (omega arith)
      ∙ ground arith)
get_elem?-connect_all n base (suc rounds) t (suc m) i r hm hi e =
    get_elem?-append_right (connect_from n 0 (base + t)) _ _ (m * n + i)
      (omega (arith, length-connect_from n 0 (base + t)))
    ∙ get_elem?-connect_all n base rounds (t + 1) m i r (omega arith) hi (omega arith)

-- The queue pair with the index `m * n + i` of a server among `n`, for two servers `m` and `i`,
-- leads to server `i`, to the buffer of table `m`.
pub get_elem?-connect_qps :
    (n base m i : ℕ)
    → m < n
    → i < n
    → get_elem? (connect_qps n base) (m * n + i) ≡ some (record { server = i; port = base + m })
unfolding connect_qps
get_elem?-connect_qps n base m i hm hi = get_elem?-connect_all n base n 0 m i m hm hi (omega arith)
