-- ===== src/Peers/Tests.antt =====
-- A manager after concrete calls.
use blackstone.Prelude.{◌+◌, ◌≡◌, refl, String, Bool, true, none, some, List, [], ◌∷◌}
use blackstone.Prelude.Int.{pos, negsuc, ◌+ℤ◌}
use blackstone.Map.{◌==◌, find, insert, place, replace, erase, string_key}
use blackstone.Peers.{
  PeerManager, new_manager, add_peer, adjust_peer_score, ban_peer, is_banned, get_peer_count, Call,
  adds, bans, scores, loads, PeerEntry, deserialize, run,
}
use blackstone.Peers.Bans.{IsSoundResult}
use blackstone.Peers.Growth.{run-IsSound, add_peer-count, is_banned-run}

-- An entry whose score is no number: deserialize throws.
abbrev unread : PeerEntry
unread = record {
  entry_id = "b";
  entry_address = "10.0.0.2";
  entry_port = some (pos 90);
  entry_last_seen = some 4;
  entry_score = none;
}

abbrev calls : List Call
calls =
    adds "a" "10.0.0.1" (pos 80) 5 ∷ scores "a" (negsuc 49) ∷ bans "b" ∷ loads (unread ∷ []) ∷ []

abbrev after : PeerManager
after = record {
  known_peers =
      (
        "a",
        record {
          peer_id = "a";
          address = "10.0.0.1";
          port = pos 80;
          last_seen = 5;
          latency = 0;
          score = negsuc 49;
          is_active = true;
          version = "";
        },
      )
      ∷ [];
  banned_peers = ("b", tt) ∷ [];
  max_peers = 1;
}

known_after : run (some (new_manager 1)) calls ≡ some after
unfolding run deserialize ◌+ℤ◌ find insert place replace erase new_manager adjust_peer_score
    add_peer ban_peer
known_after = refl

-- The score of -101 is not given: the call is undefined.
low_score : run (some after) (scores "a" (negsuc 50) ∷ []) ≡ none
unfolding run ◌+ℤ◌ find adjust_peer_score
low_score = refl

abbrev only_b : String → Bool
only_b id = id == "b"

run-IsSound_example : IsSoundResult only_b (run (some (new_manager 1)) calls)
run-IsSound_example = run-IsSound only_b 1 calls (tt, (tt, (tt, ((refl, tt), tt))))

-- deserialize makes a banned peer known.
banned_known :
    get_peer_count (deserialize (record unread { entry_score = some (pos 1) } ∷ []) after) ≡ 2
unfolding deserialize insert place replace get_peer_count find
banned_known = refl

add_peer-count_at :
    get_peer_count (add_peer "c" "10.0.0.3" (pos 81) 9 after) ≡ get_peer_count after + 1
unfolding find is_banned
add_peer-count_at = add_peer-count 1 calls after "c" "10.0.0.3" (pos 81) 9 known_after refl refl

is_banned-run_at : is_banned after "b" ≡ true
is_banned-run_at = is_banned-run 1 calls after "b" known_after
