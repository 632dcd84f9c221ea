-- ===== src/Connections/Limiter/Within.antt =====
-- `ConnectionLimiter` of p2p_banking_system/network/connection_pool.cpp: how far its counts can go.
use blackstone.Prelude.{
  ℕ, zero, suc, String, ◌+◌, ◌-◌, ◌≤◌, ◌<◌, ◌≡◌, refl, subst, Bool, true, false, Option, none, some,
  List, [], ◌∷◌, arith, ltb, leb, Bool-cases, inl, inr, set, get_elem?, replicate, length,
  length-set, length-replicate, count_if, count_if-set, count_if-le, count_if-pos,
}
use blackstone.Prelude.Words.{word, add64, inc64, dec64}
use blackstone.Map.{
  ◌==◌, Map, find, insert, erase, string_key, IsMap, find-insert, find-erase, sum_of, sum_of-insert,
  sum_of-erase, value_at-le, find-insert_self, insert-IsMap, erase-IsMap, beq_refl,
}
use blackstone.Connections.Limiter.{
  ConnectionLimiter, new_limiter, total_from, get_total_count, count_or_zero, get_count_for_ip,
  touched, allow_connection, connection_established, closed_at, connection_closed, reset,
  LimitedServer, new_server, Event, asks, reports, closes, resets, answered, asked, reported, step,
  run,
}

abbrev itself : ℕ → ℕ
itself n = n

abbrev pub total : ConnectionLimiter → ℕ
total l = sum_of itself l.connection_counts

total_from-eq :
    (acc : ℕ) (m : Map String ℕ)
    → acc + sum_of itself m < word
    → total_from acc m ≡ acc + sum_of itself m
unfolding total_from
total_from-eq acc [] h = omega arith
total_from-eq acc (e ∷ m) h = omega (arith, total_from-eq (add64 acc e.1) m)

-- Has the thread a connection to report, and one from the address?
abbrev pub is_waiting : Option String → Bool
is_waiting none = false
is_waiting (some ip) = true

abbrev pub waits_with : String → Option String → Bool
waits_with ip none = false
waits_with ip (some j) = j == ip

abbrev pub waiting : LimitedServer → ℕ
waiting s = count_if is_waiting s.threads

abbrev pub waiting_with : String → LimitedServer → ℕ
waiting_with ip s = count_if (waits_with ip) s.threads

-- With so many threads besides one.
pub record IsWithin (max_per_ip max_total others : ℕ) (s : LimitedServer) : Type 0 where
  pub unique : IsMap s.limiter.connection_counts
  pub per_ip :
      (ip : String) → get_count_for_ip s.limiter ip + waiting_with ip s ≤ max_per_ip + others
  pub in_total : total s.limiter + waiting s ≤ max_total + others
  pub exact : get_total_count s.limiter ≡ total s.limiter
  pub same_per_ip : s.limiter.max_per_ip ≡ max_per_ip
  pub same_total : s.limiter.max_total ≡ max_total
  pub size : length s.threads ≡ suc others

module _ (max_per_ip max_total others : ℕ) (small : max_total + others < word) where
  abbrev Within : LimitedServer → Type 0
  Within s = IsWithin max_per_ip max_total others s

  -- An entry is written, and the threads change at this address only.
  write-IsWithin :
      (s : LimitedServer) (ip : String) (n : ℕ) (threads : List (Option String))
      → Within s
      → length threads ≡ suc others
      → n + count_if (waits_with ip) threads ≤ max_per_ip + others
      → ((j : String) → (ip == j) ≡ false → count_if (waits_with j) threads ≤ waiting_with j s)
      → total s.limiter + n + count_if is_waiting threads
        ≤ max_total + others + count_or_zero (find ip s.limiter.connection_counts)
      → Within (record {
        limiter = record s.limiter { connection_counts = insert ip n s.limiter.connection_counts };
        threads = threads;
      })
  unfolding get_count_for_ip get_total_count
  write-IsWithin s ip n threads v size here others_fall k =
      let m = s.limiter.connection_counts in
      let sums : sum_of itself (insert ip n m) + count_if is_waiting threads ≤ max_total + others =
        ground (arith, sum_of-insert itself ip n m) in
      record {
        unique = insert-IsMap ip n m v.unique;
        per_ip = λ j. elim (Bool-cases (ip == j)) [
          | inl e ↦
              subst
                (λ j.
                  count_or_zero (find j (insert ip n m)) + count_if (waits_with j) threads
                  ≤ max_per_ip + others)
                ((string_key.beq_iff ip j).0 e) (rw (find-insert_self ip n m) here)
          | inr e ↦ ground (arith, find-insert ip j n m, v.per_ip j, others_fall j e)
        ];
        in_total = sums;
        exact = omega (arith, total_from-eq 0 (insert ip n m));
        same_per_ip = v.same_per_ip;
        same_total = v.same_total;
        size = size;
      }

  closed-IsWithin :
      (s : LimitedServer) (ip : String) (o : Option ℕ)
      → Within s
      → find ip s.limiter.connection_counts ≡ o
      → Within (record s { limiter = closed_at s.limiter ip o })
  unfolding get_count_for_ip get_total_count
  closed-IsWithin s ip none v e = v
  closed-IsWithin s ip (some n) v e = elim (Bool-cases (ltb 1 n)) [
    | inl more ↦
        let m = s.limiter.connection_counts in
        let old : count_or_zero (find ip m) ≡ n = rw e in
        let low : n ≤ total s.limiter = ground (arith, value_at-le itself ip m) in
        let down : dec64 n ≡ n - 1 = ground (arith, v.in_total) in
        rw (more, down)
          (write-IsWithin s ip (n - 1) s.threads v v.size (omega (arith, v.per_ip ip, old))
            (λ j h. omega arith) (omega (arith, v.in_total, old)))
    | inr last ↦
        let m = s.limiter.connection_counts in
        let sums : sum_of itself (erase ip m) + waiting s ≤ max_total + others =
          omega (arith, sum_of-erase itself ip m v.unique, v.in_total) in
        rw last (record {
          unique = erase-IsMap ip m v.unique;
          per_ip = λ j. ground (arith, find-erase ip j m, v.per_ip j);
          in_total = sums;
          exact = omega (arith, total_from-eq 0 (erase ip m));
          same_per_ip = v.same_per_ip;
          same_total = v.same_total;
          size = v.size;
        })
  ]

  -- An entry for the address is made, and a thread may be let in.
  touched-IsWithin :
      (s : LimitedServer) (ip : String) (threads : List (Option String))
      → Within s
      → length threads ≡ suc others
      → get_count_for_ip s.limiter ip + count_if (waits_with ip) threads ≤ max_per_ip + others
      → ((j : String) → (ip == j) ≡ false → count_if (waits_with j) threads ≤ waiting_with j s)
      → total s.limiter + count_if is_waiting threads ≤ max_total + others
      → Within (record { limiter = touched s.limiter ip; threads = threads })
  unfolding get_count_for_ip
  touched-IsWithin s ip threads v size here others_fall k =
      write-IsWithin s ip (count_or_zero (find ip s.limiter.connection_counts)) threads v size here
        others_fall (omega arith)

  answered-IsWithin :
      (s : LimitedServer) (i : ℕ) (ip : String)
      → get_elem? s.threads i ≡ some none
      → Within s
      → Within (answered i ip s (allow_connection s.limiter ip))
  unfolding allow_connection get_total_count get_count_for_ip
  answered-IsWithin s i ip free v =
      let n = count_or_zero (find ip s.limiter.connection_counts) in
      let threads = set s.threads i (some ip) in
      elim (Bool-cases (leb s.limiter.max_total (total_from 0 s.limiter.connection_counts))) [
        | inl full ↦ rw full v
        | inr room ↦ elim (Bool-cases (leb s.limiter.max_per_ip n)) [
          | inl many ↦
              rw (room, many)
                (touched-IsWithin s ip s.threads v v.size (v.per_ip ip) (λ j h. omega arith)
                  v.in_total)
          | inr few ↦
              let size : length threads ≡ suc others =
                omega (arith, length-set s.threads i (some ip), v.size) in
              let under : n < max_per_ip = ground (arith, v.same_per_ip) in
              let left : total s.limiter < max_total = ground (arith, v.same_total, v.exact) in
              rw (room, few)
                (touched-IsWithin s ip threads v size
                  (omega (arith, count_if-le (waits_with ip) threads))
                  (λ j h. ground (arith, count_if-set (waits_with j) s.threads i (some ip) free))
                  (omega (arith, count_if-le is_waiting threads)))
        ]
      ]

  reported-IsWithin :
      (s : LimitedServer) (i : ℕ) (ip : String)
      → get_elem? s.threads i ≡ some (some ip)
      → Within s
      → Within (reported i s (some (some ip)))
  unfolding connection_established get_count_for_ip
  reported-IsWithin s i ip at v =
      let m = s.limiter.connection_counts in
      let n = count_or_zero (find ip m) in
      let low : n ≤ total s.limiter = ground (arith, value_at-le itself ip m) in
      let some_wait = count_if-pos is_waiting s.threads i at refl in
      let up : inc64 n ≡ n + 1 = omega (arith, v.in_total) in
      rw up (
        write-IsWithin s ip (n + 1) (set s.threads i none) v
          (omega (arith, length-set s.threads i none, v.size))
          (ground
            (arith, count_if-set (waits_with ip) s.threads i none at, beq_refl ip, v.per_ip ip))
          (λ j h. ground (arith, count_if-set (waits_with j) s.threads i none at))
          (omega (arith, count_if-set is_waiting s.threads i none at, v.in_total)))

  asked-IsWithin :
      (s : LimitedServer) (i : ℕ) (ip : String) (o : Option (Option String))
      → get_elem? s.threads i ≡ o
      → Within s
      → Within (asked i ip s o)
  asked-IsWithin s i ip none e v = v
  asked-IsWithin s i ip (some none) e v = answered-IsWithin s i ip e v
  asked-IsWithin s i ip (some (some j)) e v = v

  done-IsWithin :
      (s : LimitedServer) (i : ℕ) (o : Option (Option String))
      → get_elem? s.threads i ≡ o
      → Within s
      → Within (reported i s o)
  done-IsWithin s i none e v = v
  done-IsWithin s i (some none) e v = v
  done-IsWithin s i (some (some ip)) e v = reported-IsWithin s i ip e v

  reset-IsWithin : (s : LimitedServer) → Within s → Within (record s { limiter = reset s.limiter })
  unfolding reset get_count_for_ip get_total_count total_from find
  reset-IsWithin s v = record {
    unique = tt;
    per_ip = λ ip. omega (arith, v.per_ip ip);
    in_total = omega (arith, v.in_total);
    exact = refl;
    same_per_ip = v.same_per_ip;
    same_total = v.same_total;
    size = v.size;
  }

  step-IsWithin : (s : LimitedServer) (e : Event) → Within s → Within (step s e)
  unfolding step connection_closed
  step-IsWithin s (asks i ip) v = asked-IsWithin s i ip (get_elem? s.threads i) refl v
  step-IsWithin s (reports i) v = done-IsWithin s i (get_elem? s.threads i) refl v
  step-IsWithin s (closes ip) v = closed-IsWithin s ip (find ip s.limiter.connection_counts) v refl
  step-IsWithin s resets v = reset-IsWithin s v

  run_from-IsWithin : (s : LimitedServer) (es : List Event) → Within s → Within (run s es)
  unfolding run
  run_from-IsWithin s [] v = v
  run_from-IsWithin s (e ∷ es) v = run_from-IsWithin (step s e) es (step-IsWithin s e v)

  none_waiting :
      (p : Option String → Bool) (n : ℕ) → p none ≡ false → count_if p (replicate n none) ≡ 0
  none_waiting p zero h = refl
  none_waiting p (suc n) h = ground (arith, none_waiting p n h)

  -- A server of some threads, each of which asks before a connection and reports it later, and a total
  -- limit that with the other threads stays below 2^64. However the calls of its threads interleave
  -- with closings and resets, the connections that an address counts, with those let in and not
  -- reported yet, are no more than its limit and one less than the threads there are; so are all
  -- of them together and the total limit; and the total that is returned is their true sum.
  pub run-IsWithin :
      (es : List Event)
      → IsWithin max_per_ip max_total others
          (run (new_server (new_limiter max_per_ip max_total) (suc others)) es)
  unfolding new_limiter get_count_for_ip get_total_count total_from find
  run-IsWithin es =
      run_from-IsWithin (new_server (new_limiter max_per_ip max_total) (suc others)) es (record {
        unique = tt;
        per_ip = λ ip. omega (arith, none_waiting (waits_with ip) (suc others) refl);
        in_total = omega (arith, none_waiting is_waiting (suc others) refl);
        exact = refl;
        same_per_ip = refl;
        same_total = refl;
        size = length-replicate {A = Option String} (suc others) none;
      })
