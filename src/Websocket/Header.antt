-- ===== src/Websocket/Header.antt =====
-- p2p_banking_system/api/websocket.cpp: the header of a frame, and what `recv` takes from the first segment.
use mathlib.Core.List.{append-nil}
use blackstone.Prelude.{
  ℕ, zero, suc, ◌+◌, ◌≤◌, ◌<◌, ◌≡◌, refl, ap, ◌∙◌, List, [], ◌∷◌, ◌++◌, arith, length, take, drop,
  leb, if◌then◌else◌, Bool-cases, inl, inr, true, false, length-append, eqb_not,
}
use blackstone.Prelude.Words.{word}
use blackstone.Websocket.{
  Stream, at_once, recv, fill, big_endian, from_bytes, frame_header, read_length,
}
use blackstone.Websocket.Payload.{flat, IsStream}

-- What a segment leaves behind.
abbrev pub left_over : List ℕ → Stream → Stream
left_over [] s = s
left_over (b ∷ bs) s = (b ∷ bs) ∷ s

pub flat-left_over : (c : List ℕ) (s : Stream) → flat (left_over c s) ≡ c ++ flat s
flat-left_over [] s = refl
flat-left_over (b ∷ bs) s = refl

pub left_over-IsStream : (c : List ℕ) (s : Stream) → IsStream s → IsStream (left_over c s)
left_over-IsStream [] s h = h
left_over-IsStream (b ∷ bs) s h = (omega arith, h)

pub take-append_all : (n : ℕ) (xs ys : List ℕ) → length xs ≡ n → take n (xs ++ ys) ≡ xs
take-append_all zero [] ys h = refl
take-append_all zero (x ∷ xs) ys h = absurd (omega arith)
take-append_all (suc n) [] ys h = absurd (omega arith)
take-append_all (suc n) (x ∷ xs) ys h = ap (λ t. x ∷ t) (take-append_all n xs ys (omega arith))

pub drop-append_all : (n : ℕ) (xs ys : List ℕ) → length xs ≡ n → drop n (xs ++ ys) ≡ ys
drop-append_all zero [] ys h = refl
drop-append_all zero (x ∷ xs) ys h = absurd (omega arith)
drop-append_all (suc n) [] ys h = absurd (omega arith)
drop-append_all (suc n) (x ∷ xs) ys h = drop-append_all n xs ys (omega arith)

-- A few bytes are asked for at once.
at_once_few : (n : ℕ) → n ≤ 8 → at_once n ≡ n
at_once_few n h = ground arith

recv_front :
    (n : ℕ) (xs c : List ℕ) (s : Stream)
    → n ≤ 8
    → length xs ≡ n
    → recv n ((xs ++ c) ∷ s) ≡ (xs, left_over c s)
recv_front n xs [] s few h = rw (at_once_few n few, append-nil xs, at_most (length xs) h) refl
  where
    at_most : (m : ℕ) → m ≡ n → leb m n ≡ true
    at_most m h = ground arith
recv_front n xs (b ∷ c) s few h =
    rw
      (
        at_once_few n few,
        length-append xs (b ∷ c),
        over (length xs) h,
        take-append_all n xs (b ∷ c) h,
        drop-append_all n xs (b ∷ c) h,
      )
      refl
  where
    over : (m : ℕ) → m ≡ n → leb (m + suc (length c)) n ≡ false
    over m h = ground arith

pub recv-left_over :
    (n : ℕ) (xs c : List ℕ) (s : Stream)
    → n < 8
    → length xs ≡ suc n
    → recv (suc n) (left_over (xs ++ c) s) ≡ (xs, left_over c s)
recv-left_over n [] c s few h = absurd (omega arith)
recv-left_over n (x ∷ xs) c s few h = recv_front (suc n) (x ∷ xs) c s few h

fill_front :
    (n : ℕ) (xs c old : List ℕ) (s : Stream)
    → n < 8
    → length xs ≡ suc n
    → fill (suc n) old (left_over (xs ++ c) s) ≡ (xs, left_over c s)
fill_front n xs c old s few h =
    rw (recv-left_over n xs c s few h)
      (ap (λ t. (t, left_over c s)) (take-append_all (suc n) xs (drop (length xs) old) h))

abbrev pub code : ℕ → ℕ
code len = if leb len 125 then len else if leb len 65535 then 126 else 127

abbrev pub ext : ℕ → List ℕ
ext len = if leb len 125 then [] else if leb len 65535 then big_endian 2 len else big_endian 8 len

pub code-lt : (len : ℕ) → code len < 128
code-lt len = ground arith

frame_header_lem : (bit len : ℕ) → frame_header bit len ≡ 0x81 ∷ (bit + code len) ∷ ext len
unfolding frame_header
frame_header_lem bit len = elim (Bool-cases (leb len 125)) [
  | inl e ↦ rw e refl
  | inr e ↦ rw e (elim (Bool-cases (leb len 65535)) [ inl f ↦ rw f refl | inr f ↦ rw f refl ])
]

from_bytes-two : (len : ℕ) → len ≤ 65535 → from_bytes 0 (big_endian 2 len) ≡ len
from_bytes-two len h = omega arith

from_bytes-eight : (len : ℕ) → len < word → from_bytes 0 (big_endian 8 len) ≡ len
from_bytes-eight len h = omega arith

pub read_length_lem :
    (len : ℕ) (c old : List ℕ) (s : Stream)
    → len < word
    → read_length (code len) old (left_over (ext len ++ c) s) ≡ (len, left_over c s)
read_length_lem len c old s h = elim (Bool-cases (leb len 125)) [
  | inl e ↦ rw (e, eqb_not len 126 (ground arith), eqb_not len 127 (ground arith)) refl
  | inr e ↦ rw e (elim (Bool-cases (leb len 65535)) [
    | inl f ↦ rw f (
        ap (λ r. (from_bytes 0 r.0, r.1))
          (fill_front 1 (big_endian 2 len) c old s (omega arith) refl)
        ∙ ap (λ n. (n, left_over c s)) (from_bytes-two len (ground arith)))
    | inr f ↦ rw f (
        ap (λ r. (from_bytes 0 r.0, r.1))
          (fill_front 7 (big_endian 8 len) c old s (omega arith) refl)
        ∙ ap (λ n. (n, left_over c s)) (from_bytes-eight len h))
  ])
]

-- The first two bytes, whatever the mask bit.
pub recv_header :
    (bit len : ℕ) (c : List ℕ) (s : Stream)
    → recv 2 ((frame_header bit len ++ c) ∷ s)
      ≡ (0x81 ∷ (bit + code len) ∷ [], left_over (ext len ++ c) s)
recv_header bit len c s =
    rw (frame_header_lem bit len)
      (recv_front 2 (0x81 ∷ (bit + code len) ∷ []) (ext len ++ c) s (omega arith) refl)
