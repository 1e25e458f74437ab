-- ===== src/Tests/Readers.antt =====
-- A reader over a list, and primitives of cryptography that are only as good as a test needs.
use tekflash.Common.{
  ℕ, zero, suc, ◌-◌, ◌<◌, ◌≡◌, refl, sym, List, [], ◌∷◌, ◌++◌, ok, ok_inj, length, take, drop,
  take-append-drop, take-append, length-append, length-take, arith, ap, ◌∙◌, append_assoc,
  append-nil,
}
use tekflash.Pipeline.Reader.{Reader, ReadLaws, Infallible}
use tekflash.Pipeline.Crypto.{Bytes, Primitives, tag_len}
use tekflash.Pipeline.Crypto.RoundTrip.{CipherLaws}
use tekflash.Pipeline.Hasher.{HashCrates, Streams}

-- The bytes that are left; a read fills the buffer.
abbrev pub whole_of : (E : Type 0) → Reader E
whole_of E = record { State = List ℕ; read = λ s n. ok (take n s, drop n s) }

abbrev pub whole : Reader (Unit {0})
whole = whole_of (Unit {0})

abbrev pub left : List ℕ → List ℕ
left s = s

nothing_taken : (n : ℕ) (s : List ℕ) → 0 < n → take n s ≡ [] → s ≡ []
nothing_taken zero s h e = absurd (omega arith)
nothing_taken (suc n) [] h e = refl
nothing_taken (suc n) (x ∷ xs) h e = cc

pub whole_of-ReadLaws : (E : Type 0) → ReadLaws (whole_of E) left
whole_of-ReadLaws E = record {
  piece = λ s s' n chunk h. sym (take-append-drop n s) ∙ cc (ok_inj h);
  fits = λ s s' n chunk h. omega (arith, length-take n s, ap (λ p. length p.0) (ok_inj h));
  at_end = λ s s' n lt h. nothing_taken n s lt (ap (λ p. p.0) (ok_inj h));
}

pub whole-ReadLaws : ReadLaws whole left
whole-ReadLaws = whole_of-ReadLaws (Unit {0})

pub whole_of-Infallible : (E : Type 0) → Infallible (whole_of E)
whole_of-Infallible E = record { succeeds = λ s n. ((take n s, drop n s), refl) }

pub whole-Infallible : Infallible whole
whole-Infallible = record { succeeds = λ s n. ((take n s, drop n s), refl) }

abbrev pub zeros : Bytes
zeros = 0 ∷ 0 ∷ 0 ∷ 0 ∷ 0 ∷ 0 ∷ 0 ∷ 0 ∷ 0 ∷ 0 ∷ 0 ∷ 0 ∷ 0 ∷ 0 ∷ 0 ∷ 0 ∷ []

-- The tag is sixteen zeros, and a message opens without it.
abbrev pub toy : Primitives
toy = record {
  Params = Unit {0};
  Key = Bytes;
  params_new = λ m t p n. ok tt;
  hash_password_into = λ p password salt. ok (password ++ salt);
  encrypt = λ key n a m. ok (m ++ zeros);
  decrypt = λ key n a c. ok (take (length c - tag_len) c);
}

opened : (m : Bytes) → take (length (m ++ zeros) - tag_len) (m ++ zeros) ≡ m
opened m =
    take-append m zeros (length (m ++ zeros) - tag_len) (omega (arith, length-append m zeros))

pub toy-CipherLaws : CipherLaws toy
toy-CipherLaws = record {
  opens =
      λ key n a m c h. ap ok (ap (λ x. take (length x - tag_len) x) (sym (ok_inj h)) ∙ opened m);
  adds_tag = λ key n a m c h. ap length (sym (ok_inj h)) ∙ length-append m zeros;
}

-- A hash that keeps every byte.
abbrev pub keeping : HashCrates
keeping = record {
  Blake = List ℕ;
  blake_new = [];
  blake_update = λ h b. h ++ b;
  blake_hex = λ h. h;
  Sha = List ℕ;
  sha_new = [];
  sha_update = λ h b. h ++ b;
  sha_bytes = λ h. h;
}

pub keeping-Streams : Streams keeping
keeping-Streams = record {
  blake_nil = append-nil;
  blake_append = λ h a b. append_assoc h a b;
  sha_nil = append-nil;
  sha_append = λ h a b. append_assoc h a b;
}
