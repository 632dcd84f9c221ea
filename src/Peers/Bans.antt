-- ===== src/Peers/Bans.antt =====
-- Invariants of the manager: a banned peer is not known, unless deserialize has named
-- it, and every known peer is active.
use blackstone.Prelude.{
  ℕ, ◌≡◌, refl, sym, ap, subst, is_some, String, Bool, true, false, not, ◌&&◌, Option, none, some,
  List, All, [], ◌∷◌, arith, leb, length, Bool-cases, inl, inr, if_both,
}
use blackstone.Prelude.Int.{ℤ}
use blackstone.Map.{
  ◌==◌, Map, find, contains, insert, erase, string_key, find-insert, find-erase, find-retain, IsMap,
  insert-IsMap, erase-IsMap, retain-IsMap, kept, beq_refl,
}
use blackstone.Peers.{
  PeerEntry, read_peer, put_peer, load_peer, deserialize, PeerInfo, PeerManager, evict, welcome,
  add_peer, update, ban_peer, unban_peer, is_recent, cleanup_inactive_peers,
}

abbrev pub live_at : Option PeerInfo → Bool
live_at none = true
live_at (some p) = p.is_active

module _ (loaded : String → Bool) where
  pub record IsSound (s : PeerManager) : Type 0 where
    pub unique : IsMap s.known_peers
    pub apart :
        (id : String)
        → ((contains id s.banned_peers && contains id s.known_peers) && not (loaded id)) ≡ false
    pub all_active : (id : String) → live_at (find id s.known_peers) ≡ true

  -- Of a call that was undefined, and of a throw, nothing is asked.
  abbrev pub IsSoundResult : Option PeerManager → Type 0
  IsSoundResult none = Unit
  IsSoundResult (some s) = IsSound s

  -- Nothing is evicted where every peer is active.
  pub evict-active :
      (m : Map String PeerInfo)
      → IsMap m
      → ((id : String) → live_at (find id m) ≡ true)
      → evict m ≡ m
  unfolding evict find
  evict-active [] h k = refl
  evict-active (e ∷ m) h k =
      let rest = evict-active m h.1 (λ id.
        ground (arith, k id, string_key.beq_iff e.0 id, ap (λ (j : String). find j m), h.0)) in
      ground (arith, k e.0, beq_refl e.0, rest)

  insert-IsSound :
      (id : String) (p : PeerInfo) (s : PeerManager)
      → p.is_active ≡ true
      → (contains id s.banned_peers && not (loaded id)) ≡ false
      → IsSound s
      → IsSound (record s { known_peers = insert id p s.known_peers })
  insert-IsSound id p s on free v = record {
    unique = insert-IsMap id p s.known_peers v.unique;
    apart = λ j. ground (
      arith,
      find-insert id j p s.known_peers,
      v.apart j,
      string_key.beq_iff id j,
      ap (λ (k : String). find k s.banned_peers),
      ap loaded,
    );
    all_active = λ j. ground (arith, find-insert id j p s.known_peers, v.all_active j);
  }

  pub erase-IsSound :
      (id : String) (s : PeerManager)
      → IsSound s
      → IsSound (record s { known_peers = erase id s.known_peers })
  erase-IsSound id s v = record {
    unique = erase-IsMap id s.known_peers v.unique;
    apart = λ j. ground (arith, find-erase id j s.known_peers, v.apart j);
    all_active = λ j. ground (arith, find-erase id j s.known_peers, v.all_active j);
  }

  pub ban-IsSound : (id : String) (s : PeerManager) → IsSound s → IsSound (ban_peer id s)
  unfolding ban_peer
  ban-IsSound id s v = record {
    unique = erase-IsMap id s.known_peers v.unique;
    apart = λ j.
        ground
          (arith, find-erase id j s.known_peers, find-insert id j tt s.banned_peers, v.apart j);
    all_active = λ j. ground (arith, find-erase id j s.known_peers, v.all_active j);
  }

  pub unban-IsSound : (id : String) (s : PeerManager) → IsSound s → IsSound (unban_peer id s)
  unfolding unban_peer
  unban-IsSound id s v = record {
    unique = v.unique;
    apart = λ j. ground (arith, find-erase id j s.banned_peers, v.apart j);
    all_active = v.all_active;
  }

  -- What is left of a peer.
  kept-live :
      (f : PeerInfo → Bool) (o : Option PeerInfo) → live_at o ≡ true → live_at (kept f o) ≡ true
  kept-live f none h = refl
  kept-live f (some p) h = if_both (λ o. live_at o ≡ true) (f p) h refl

  kept-apart :
      (f : PeerInfo → Bool) (b l : Bool) (o : Option PeerInfo)
      → ((b && is_some o) && l) ≡ false
      → ((b && is_some (kept f o)) && l) ≡ false
  kept-apart f b l none h = h
  kept-apart f b l (some p) h =
      if_both (λ o. ((b && is_some o) && l) ≡ false) (f p) h (ground arith)

  pub clean-IsSound :
      (max_inactive now : ℕ) (s : PeerManager)
      → IsSound s
      → IsSound (cleanup_inactive_peers max_inactive now s)
  unfolding cleanup_inactive_peers
  clean-IsSound max_inactive now s v =
      let f = is_recent max_inactive now in
      record {
        unique = retain-IsMap f s.known_peers v.unique;
        apart = λ j. rw (find-retain f j s.known_peers v.unique) (kept-apart f _ _ _ (v.apart j));
        all_active =
            λ j. rw (find-retain f j s.known_peers v.unique) (kept-live f _ (v.all_active j));
      }

  pub update-IsSound :
      (id : String) (f : PeerInfo → PeerInfo) (s : PeerManager) (o : Option PeerInfo)
      → ((p : PeerInfo) → p.is_active ≡ true → (f p).is_active ≡ true)
      → find id s.known_peers ≡ o
      → IsSound s
      → IsSound (update id f s o)
  update-IsSound id f s none on e v = v
  update-IsSound id f s (some p) on e v =
      insert-IsSound id (f p) s (on p (ground (arith, v.all_active id, ap live_at e)))
        (ground (arith, v.apart id)) v

  welcome-active :
      (id address : String) (port : ℤ) (now : ℕ) (o : Option PeerInfo)
      → (welcome id address port now o).is_active ≡ true
  welcome-active id address port now none = refl
  welcome-active id address port now (some p) = refl

  -- Adding a peer that is not banned evicts none.
  pub add_peer-unbanned :
      (id address : String) (port : ℤ) (now : ℕ) (s : PeerManager)
      → contains id s.banned_peers ≡ false
      → IsSound s
      → add_peer id address port now s ≡ record s {
        known_peers = insert id (welcome id address port now (find id s.known_peers)) s.known_peers;
      }
  unfolding add_peer
  add_peer-unbanned id address port now s free v =
      elim (Bool-cases (leb s.max_peers (length s.known_peers))) [
        | inl full ↦ rw (full, free) (rw (evict-active s.known_peers v.unique v.all_active) refl)
        | inr room ↦ rw (room, free) refl
      ]

  pub add-IsSound :
      (id address : String) (port : ℤ) (now : ℕ) (s : PeerManager)
      → IsSound s
      → IsSound (add_peer id address port now s)
  unfolding add_peer
  add-IsSound id address port now s v = elim (Bool-cases (contains id s.banned_peers)) [
    | inl banned ↦ rw banned v
    | inr free ↦ subst IsSound (sym (add_peer-unbanned id address port now s free v)) (
        insert-IsSound id _ s (welcome-active id address port now (find id s.known_peers))
          (rw free refl) v)
  ]

  put-IsSound :
      (e : PeerEntry) (s : PeerManager) (port : Option ℤ) (seen : Option ℕ) (score : Option ℤ)
      → loaded e.entry_id ≡ true
      → IsSound s
      → IsSoundResult (put_peer e s (read_peer e port seen score))
  put-IsSound e s none seen score h v = tt
  put-IsSound e s (some port) none score h v = tt
  put-IsSound e s (some port) (some seen) none h v = tt
  put-IsSound e s (some port) (some seen) (some score) h v =
      insert-IsSound e.entry_id _ s refl (ground arith) v

  load_peer-IsSound :
      (e : PeerEntry) (s : PeerManager)
      → loaded e.entry_id ≡ true
      → IsSound s
      → IsSoundResult (load_peer e s)
  load_peer-IsSound e s h v =
      if_both IsSoundResult (not (e.entry_id == "") && not (e.entry_address == ""))
        (put-IsSound e s e.entry_port e.entry_last_seen e.entry_score h v) v

  pub deserialize-IsSound :
      (es : List PeerEntry) (s : PeerManager)
      → All (λ e. loaded e.entry_id ≡ true) es
      → IsSound s
      → IsSound (deserialize es s)
  unfolding deserialize
  deserialize-IsSound [] s h v = v
  deserialize-IsSound (e ∷ es) s h v =
      loop (load_peer e s) (load_peer-IsSound e s h.0 v) (λ s' w. deserialize-IsSound es s' h.1 w)
    where
      loop :
          (o : Option PeerManager)
          → IsSoundResult o
          → ((s' : PeerManager) → IsSound s' → IsSound (deserialize es s'))
          → IsSound (elim o [ none ↦ s | some s' ↦ deserialize es s' ])
      loop none w rest = v
      loop (some s') w rest = rest s' w
