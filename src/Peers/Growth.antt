-- ===== src/Peers/Growth.antt =====
-- What holds of the manager after any calls.
use blackstone.Prelude.{
  ℕ, ◌+◌, ◌≡◌, refl, ap, ◌∙◌, subst, String, Bool, true, false, not, ◌&&◌, Option, none, some, List,
  All, [], ◌∷◌, arith, if◌then◌else◌, if_both,
}
use blackstone.Prelude.Int.{ℤ, ◌+ℤ◌, ltb_ℤ, negsuc}
use blackstone.Map.{◌==◌, find, contains, string_key, find-insert, find-erase, length-insert}
use blackstone.Peers.{
  PeerInfo, PeerManager, new_manager, add_peer, remove_peer, update, seen, welcome,
  update_peer_seen, averaged, update_peer_latency, scored, is_int, adjust, adjust_peer_score,
  ban_peer, unban_peer, is_banned, get_peer_count, cleanup_inactive_peers, Call, adds, removes,
  bans, unbans, sees, times, scores, cleans, loads, PeerEntry, read_peer, put_peer, load_peer,
  deserialize, step, run,
}
use blackstone.Peers.Bans.{
  IsSound, IsSoundResult, deserialize-IsSound, add-IsSound, erase-IsSound, ban-IsSound,
  unban-IsSound, clean-IsSound, update-IsSound, add_peer-unbanned,
}

-- Does deserialize name only peers of the set?
abbrev pub LoadsOnly : (String → Bool) → Call → Type 0
LoadsOnly loaded (loads es) = All (λ e. loaded e.entry_id ≡ true) es
LoadsOnly loaded _ = Unit

module _ (loaded : String → Bool) where
  adjust-IsSound :
      (id : String) (delta : ℤ) (s : PeerManager) (o : Option PeerInfo)
      → find id s.known_peers ≡ o
      → IsSound loaded s
      → IsSoundResult loaded (adjust id delta s o)
  adjust-IsSound id delta s none e v = v
  adjust-IsSound id delta s (some p) e v =
      if_both (IsSoundResult loaded)
        (is_int (p.score +ℤ delta) && not (ltb_ℤ (p.score +ℤ delta) (negsuc 99)))
        (update-IsSound loaded id (scored delta) s (some p) (λ q on. on) e v) tt

  step-IsSound :
      (s : PeerManager) (c : Call)
      → LoadsOnly loaded c
      → IsSound loaded s
      → IsSoundResult loaded (step s c)
  unfolding step remove_peer update_peer_seen update_peer_latency adjust_peer_score
  step-IsSound s (adds id address port now) l v = add-IsSound loaded id address port now s v
  step-IsSound s (removes id) l v = erase-IsSound loaded id s v
  step-IsSound s (bans id) l v = ban-IsSound loaded id s v
  step-IsSound s (unbans id) l v = unban-IsSound loaded id s v
  step-IsSound s (sees id now) l v =
      update-IsSound loaded id (seen now) s (find id s.known_peers) (λ p on. refl) refl v
  step-IsSound s (times id latency) l v =
      update-IsSound loaded id (averaged latency) s (find id s.known_peers) (λ p on. on) refl v
  step-IsSound s (scores id delta) l v = adjust-IsSound id delta s (find id s.known_peers) refl v
  step-IsSound s (cleans max_inactive now) l v = clean-IsSound loaded max_inactive now s v
  step-IsSound s (loads es) l v = deserialize-IsSound loaded es s l v

  run_from-IsSound :
      (o : Option PeerManager) (cs : List Call)
      → All (LoadsOnly loaded) cs
      → IsSoundResult loaded o
      → IsSoundResult loaded (run o cs)
  unfolding run
  run_from-IsSound none cs l v = tt
  run_from-IsSound (some s) [] l v = v
  run_from-IsSound (some s) (c ∷ cs) l v =
      run_from-IsSound (step s c) cs l.1 (step-IsSound s c l.0 v)

  -- After any calls on a new manager, unless one was undefined, every known peer is active, none is
  -- known twice, and no banned peer is known but those that the entries of deserialize name: for a set
  -- with all of these.
  pub run-IsSound :
      (max : ℕ) (cs : List Call)
      → All (LoadsOnly loaded) cs
      → IsSoundResult loaded (run (some (new_manager max)) cs)
  unfolding new_manager find
  run-IsSound max cs l =
      run_from-IsSound (some (new_manager max)) cs l
        (record { unique = tt; apart = λ id. refl; all_active = λ id. refl })

-- Every peer is in the set of all.
any_loads : (cs : List Call) → All (LoadsOnly (λ id. true)) cs
any_loads [] = tt
any_loads (c ∷ cs) = (one c, any_loads cs)
  where
    entries : (es : List PeerEntry) → All (λ e. true ≡ true) es
    entries [] = tt
    entries (e ∷ es) = (refl, entries es)

    one : (c : Call) → LoadsOnly (λ id. true) c
    one (adds id address port now) = tt
    one (removes id) = tt
    one (bans id) = tt
    one (unbans id) = tt
    one (sees id now) = tt
    one (times id latency) = tt
    one (scores id delta) = tt
    one (cleans max_inactive now) = tt
    one (loads es) = entries es

-- The limit has no effect: however many peers there are after calls on a new manager, adding one that
-- is neither known nor banned makes them one more.
pub add_peer-count :
    (max : ℕ) (cs : List Call) (s : PeerManager) (id address : String) (port : ℤ) (now : ℕ)
    → run (some (new_manager max)) cs ≡ some s
    → is_banned s id ≡ false
    → find id s.known_peers ≡ none
    → get_peer_count (add_peer id address port now s) ≡ get_peer_count s + 1
unfolding is_banned get_peer_count
add_peer-count max cs s id address port now e free new =
    let all : String → Bool = λ id. true in
    let v : IsSound all s = subst (IsSoundResult all) e (run-IsSound all max cs (any_loads cs)) in
    rw (add_peer-unbanned all id address port now s free v) (
      ground (
        arith,
        length-insert id (welcome id address port now (find id s.known_peers)) s.known_peers,
      ))

-- Whether a peer is banned after a call, when only `banPeer` and `unbanPeer` count.
abbrev pub banned_after : Call → String → Bool → Bool
banned_after (bans j) id before = if j == id then true else before
banned_after (unbans j) id before = if j == id then false else before
banned_after _ id before = before

abbrev pub banned_by : List Call → String → Bool → Bool
banned_by [] id before = before
banned_by (c ∷ cs) id before = banned_by cs id (banned_after c id before)

abbrev bans_of : Option PeerManager → String → Bool → Bool
bans_of none id before = before
bans_of (some s) id before = contains id s.banned_peers

update-bans :
    (id j : String) (f : PeerInfo → PeerInfo) (s : PeerManager) (o : Option PeerInfo)
    → contains id (update j f s o).banned_peers ≡ contains id s.banned_peers
update-bans id j f s none = refl
update-bans id j f s (some p) = refl

adjust-bans :
    (id j : String) (delta : ℤ) (s : PeerManager) (o : Option PeerInfo)
    → bans_of (adjust j delta s o) id (contains id s.banned_peers) ≡ contains id s.banned_peers
adjust-bans id j delta s none = refl
adjust-bans id j delta s (some p) =
    if_both (λ o. bans_of o id (contains id s.banned_peers) ≡ contains id s.banned_peers)
      (is_int (p.score +ℤ delta) && not (ltb_ℤ (p.score +ℤ delta) (negsuc 99))) refl refl

put_peer-bans :
    (e : PeerEntry) (s : PeerManager) (o : Option PeerInfo) (id : String)
    → bans_of (put_peer e s o) id (contains id s.banned_peers) ≡ contains id s.banned_peers
put_peer-bans e s none id = refl
put_peer-bans e s (some p) id = refl

deserialize-bans :
    (es : List PeerEntry) (s : PeerManager) (id : String)
    → contains id (deserialize es s).banned_peers ≡ contains id s.banned_peers
unfolding deserialize
deserialize-bans [] s id = refl
deserialize-bans (e ∷ es) s id =
    loop (load_peer e s)
      (if_both (λ o. bans_of o id (contains id s.banned_peers) ≡ contains id s.banned_peers)
        (not (e.entry_id == "") && not (e.entry_address == ""))
        (put_peer-bans e s (read_peer e e.entry_port e.entry_last_seen e.entry_score) id) refl)
      (λ s'. deserialize-bans es s' id)
  where
    loop :
        (o : Option PeerManager)
        → bans_of o id (contains id s.banned_peers) ≡ contains id s.banned_peers
        → ((s' : PeerManager)
            → contains id (deserialize es s').banned_peers ≡ contains id s'.banned_peers)
        → contains id
            (elim o as (λ p. PeerManager) [ none ↦ s | some s' ↦ deserialize es s' ]).banned_peers
          ≡ contains id s.banned_peers
    loop none h rest = refl
    loop (some s') h rest = rest s' ∙ h

step-bans :
    (s : PeerManager) (c : Call) (id : String)
    → let after = banned_after c id (contains id s.banned_peers) in
      bans_of (step s c) id after ≡ after
unfolding step add_peer remove_peer ban_peer unban_peer update_peer_seen update_peer_latency
    adjust_peer_score cleanup_inactive_peers
step-bans s (adds j address port now) id =
    if_both (λ (r : PeerManager). contains id r.banned_peers ≡ contains id s.banned_peers)
      (contains j s.banned_peers) refl refl
step-bans s (removes j) id = refl
step-bans s (bans j) id = ground (arith, find-insert j id tt s.banned_peers)
step-bans s (unbans j) id = ground (arith, find-erase j id s.banned_peers)
step-bans s (sees j now) id = update-bans id j (seen now) s (find j s.known_peers)
step-bans s (times j latency) id = update-bans id j (averaged latency) s (find j s.known_peers)
step-bans s (scores j delta) id = adjust-bans id j delta s (find j s.known_peers)
step-bans s (cleans max_inactive now) id = refl
step-bans s (loads es) id = deserialize-bans es s id

run_from-bans :
    (o : Option PeerManager) (cs : List Call) (s : PeerManager) (id : String) (before : Bool)
    → bans_of o id before ≡ before
    → run o cs ≡ some s
    → contains id s.banned_peers ≡ banned_by cs id before
unfolding run
run_from-bans none cs s id before h e = absurd (ground arith)
run_from-bans (some s₀) [] s id before h e = ground (arith, ap (λ o. bans_of o id before) e)
run_from-bans (some s₀) (c ∷ cs) s id before h e = rw (← h) (
    run_from-bans (step s₀ c) cs s id (banned_after c id (contains id s₀.banned_peers))
      (step-bans s₀ c id) e)

-- Scores ban nobody: after calls on a new manager, none of them undefined, a peer is banned exactly if
-- `banPeer` was called for it and `unbanPeer` not since.
pub is_banned-run :
    (max : ℕ) (cs : List Call) (s : PeerManager) (id : String)
    → run (some (new_manager max)) cs ≡ some s
    → is_banned s id ≡ banned_by cs id false
unfolding is_banned new_manager find
is_banned-run max cs s id e = run_from-bans (some (new_manager max)) cs s id false refl e
