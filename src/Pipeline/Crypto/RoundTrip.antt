-- ===== src/Pipeline/Crypto/RoundTrip.antt =====
-- What `encrypt_password` writes, `decrypt_password` reads back.
use tekflash.Common.{
  ◌-◌, min, ℕ, zero, suc, ◌+◌, ◌^◌, ◌≤◌, ◌<◌, ◌≡◌, refl, sym, ap, ◌∙◌, Bool, [], ◌∷◌, ◌++◌, ◌==◌,
  ltb, leb, if◌then◌else◌, length, take, drop, take-append, drop-append, take-append-drop,
  length-append, length-take, length-drop, arith, Result, ok, err, ok_inj, ◌>>=◌, >>=-eq-ok, ◌⊎◌,
  inl, inr,
}
use tekflash.Pipeline.Crypto.{
  Bytes, Primitives, CryptoError, map_err, make_nonce, make_aad, tag_len, frame_size_log2,
  decrypt_failed, encrypt_failed, seal_frames, open_frames,
}

-- What the code relies on of the cipher: a sealed message opens under the nonce and the associated
-- data it was sealed with, and it is longer by the tag.
pub record CipherLaws (prims : Primitives) : Type 0 where
  pub opens :
      (key : prims.Key) (n a m c : Bytes)
      → prims.encrypt key n a m ≡ ok c
      → prims.decrypt key n a c ≡ ok m
  pub adds_tag :
      (key : prims.Key) (n a m c : Bytes)
      → prims.encrypt key n a m ≡ ok c
      → length c ≡ length m + tag_len

map_err_ok :
    {A : Type 0} (e : CryptoError) (r : Result (Unit {0}) A) (a : A) → map_err e r ≡ ok a → r ≡ ok a
map_err_ok e (ok b) a h = ground arith
map_err_ok e (err u) a h = cc

-- The two tests of a round, at the lengths that the writer leaves.
cut_last :
    (fs left ct total : ℕ)
    → left ≤ fs
    → ct ≡ left + tag_len
    → total ≡ ct
    → ((if ltb (fs + tag_len) total then fs + tag_len else total) ≡ ct)
      × ((ct == total) ≡ leb left fs)
cut_last fs left ct total h c t = ground arith

cut_inner :
    (fs left ct total : ℕ)
    → fs < left
    → ct ≡ fs + tag_len
    → ct < total
    → ((if ltb (fs + tag_len) total then fs + tag_len else total) ≡ ct)
      × ((ct == total) ≡ leb left fs)
cut_inner fs left ct total h c t = ground arith

module _ (prims : Primitives) (laws : CipherLaws prims) where
  open prims use {Key, encrypt, decrypt}

  -- One round of the loop, at a rest that is not empty.
  open_round : ℕ → Key → ℕ → ℕ → Bytes → ℕ → Bool → Result CryptoError Bytes
  open_round fuel key fs counter rest amount is_last = do
    pt ←
        map_err (decrypt_failed counter)
          (decrypt key (make_nonce counter is_last) (make_aad counter is_last) (take amount rest))
    out ← open_frames prims fuel key fs (counter + 1) (drop amount rest)
    ok (pt ++ out)

  abbrev amount_of : ℕ → Bytes → ℕ
  amount_of fs rest = if ltb (fs + tag_len) (length rest) then fs + tag_len else length rest

  open_frames_round :
      (fuel : ℕ) (key : Key) (fs counter : ℕ) (rest : Bytes)
      → 0 < length rest
      → open_frames prims (suc fuel) key fs counter rest
        ≡ open_round fuel key fs counter rest (amount_of fs rest) (amount_of fs rest == length rest)
  unfolding open_frames open_round
  open_frames_round fuel key fs counter [] h = absurd (omega arith)
  open_frames_round fuel key fs counter (b ∷ bs) h = refl

  -- A sealed frame ahead of the others, read back.
  open_round_frame :
      (fuel : ℕ) (key : Key) (fs counter : ℕ) (pt ct out r : Bytes) (last : Bool)
      → decrypt key (make_nonce counter last) (make_aad counter last) ct ≡ ok pt
      → open_frames prims fuel key fs (counter + 1) out ≡ ok r
      → open_round fuel key fs counter (ct ++ out) (length ct) last ≡ ok (pt ++ r)
  unfolding open_round
  open_round_frame fuel key fs counter pt ct out r last d o =
      rw (take-append ct out (length ct) refl, drop-append ct out (length ct) refl, d, o)

  seal_nil : (fuel : ℕ) (key : Key) (counter : ℕ) → seal_frames prims fuel key counter [] ≡ ok []
  unfolding seal_frames
  seal_nil zero key counter = refl
  seal_nil (suc fuel) key counter = refl

  -- A round of sealing, taken apart.
  pub seal_round :
      (fuel : ℕ) (key : Key) (counter : ℕ) (b : ℕ) (bs out : Bytes)
      → seal_frames prims (suc fuel) key counter (b ∷ bs) ≡ ok out
      → let last = leb (length (b ∷ bs)) (2 ^ frame_size_log2) in
        (ct : Bytes) × (rest : Bytes) × (encrypt key
            (make_nonce counter last)
            (make_aad counter last)
            (take (2 ^ frame_size_log2) (b ∷ bs))
          ≡ ok ct)
        × (seal_frames prims fuel key (counter + 1) (drop (2 ^ frame_size_log2) (b ∷ bs)) ≡ ok rest)
        × (out ≡ ct ++ rest)
  unfolding seal_frames
  seal_round fuel key counter b bs out h =
      let (ct, e, h') = >>=-eq-ok (map_err encrypt_failed _) _ h in
      let (rest, s, o) = >>=-eq-ok (seal_frames prims fuel key (counter + 1) _) _ h' in
      (ct, rest, map_err_ok encrypt_failed _ ct e, s, sym (ok_inj o))

  abbrev frame_size : ℕ
  frame_size = 2 ^ frame_size_log2

  seal_no_fuel :
      (key : Key) (counter b : ℕ) (bs out : Bytes)
      → ¬ (seal_frames prims zero key counter (b ∷ bs) ≡ ok out)
  unfolding seal_frames
  seal_no_fuel key counter b bs out h = cc

  frame_length :
      (key : Key) (n a left ct : Bytes)
      → encrypt key n a (take frame_size left) ≡ ok ct
      → length ct ≡ min frame_size (length left) + tag_len
  frame_length key n a left ct e =
      laws.adds_tag key n a (take frame_size left) ct e
      ∙ ap (λ x. x + tag_len) (length-take frame_size left)

  -- Nothing is left behind the last frame, and something is behind every other.
  seal_rest :
      (fuel : ℕ) (key : Key) (counter : ℕ) (left out : Bytes)
      → seal_frames prims fuel key counter left ≡ ok out
      → (left ≡ []) × (out ≡ []) ⊎ (0 < length left) × (0 < length out)
  seal_rest fuel key counter [] out h =
      inl (refl, sym (ok_inj (sym (seal_nil fuel key counter) ∙ h)))
  seal_rest zero key counter (b ∷ bs) out h = absurd (seal_no_fuel key counter b bs out h)
  seal_rest (suc fuel) key counter (b ∷ bs) out h =
      let (ct, rest, e, s, o) = seal_round fuel key counter b bs out h in
      let len = frame_length key _ _ (b ∷ bs) ct e in
      inr (omega arith, omega (arith, ap length o, length-append ct rest))

  -- The reader cuts the stream where the writer ended the frame, and sees the last one as such.
  cut :
      (left ct rest : Bytes)
      → length ct ≡ min frame_size (length left) + tag_len
      → (drop frame_size left ≡ []) × (rest ≡ [])
        ⊎ (0 < length (drop frame_size left)) × (0 < length rest)
      → (amount_of frame_size (ct ++ rest) ≡ length ct)
        × ((length ct == length (ct ++ rest)) ≡ leb (length left) frame_size)
  cut left ct rest len (inl (d, r)) =
      let dropped : length left - frame_size ≡ 0 =
        sym (length-drop frame_size left) ∙ ap length d in
      let whole : length (ct ++ rest) ≡ length ct =
        omega (arith, length-append ct rest, ap length r) in
      cut_last frame_size (length left) (length ct) (length (ct ++ rest)) (omega arith)
        (omega arith) whole
  cut left ct rest len (inr (d, r)) =
      let longer : frame_size < length left = omega (arith, length-drop frame_size left) in
      let more : length ct < length (ct ++ rest) = omega (arith, length-append ct rest) in
      cut_inner frame_size (length left) (length ct) (length (ct ++ rest)) longer (omega arith) more

  open_nil :
      (fuel : ℕ) (key : Key) (fs counter : ℕ) → open_frames prims fuel key fs counter [] ≡ ok []
  unfolding open_frames
  open_nil zero key fs counter = refl
  open_nil (suc fuel) key fs counter = refl

  -- Cut as it was written, the stream opens to the payload.
  pub open_frames-seal_frames :
      (fuel fuel' : ℕ) (key : Key) (counter : ℕ) (left out : Bytes)
      → seal_frames prims fuel key counter left ≡ ok out
      → length out ≤ fuel'
      → open_frames prims fuel' key (2 ^ frame_size_log2) counter out ≡ ok left
  open_frames-seal_frames fuel fuel' key counter [] out h le =
      rw (ok_inj (sym h ∙ seal_nil fuel key counter)) (open_nil fuel' key frame_size counter)
  open_frames-seal_frames zero fuel' key counter (b ∷ bs) out h le =
      absurd (seal_no_fuel key counter b bs out h)
  open_frames-seal_frames (suc fuel) zero key counter (b ∷ bs) out h le =
      let (ct, rest, e, s, o) = seal_round fuel key counter b bs out h in
      let len = frame_length key _ _ (b ∷ bs) ct e in
      absurd (omega (arith, ap length o, length-append ct rest))
  open_frames-seal_frames (suc fuel) (suc fuel') key counter (b ∷ bs) out h le =
      let (ct, rest, e, s, o) = seal_round fuel key counter b bs out h in
      let len = frame_length key _ _ (b ∷ bs) ct e in
      let size = length-append ct rest in
      let (amount, last) = cut (b ∷ bs) ct rest len (seal_rest fuel key (counter + 1) _ rest s) in
      rw
        (o, open_frames_round fuel' key frame_size counter (ct ++ rest) (omega arith), amount, last)
        (open_round_frame fuel' key frame_size counter _ ct rest _ _ (laws.opens key _ _ _ ct e) (
            open_frames-seal_frames fuel fuel' key (counter + 1) _ rest s
              (omega (arith, ap length o)))
          ∙ ap ok (take-append-drop frame_size (b ∷ bs)))
