-- ===== src/Pipeline/Compress/Extension.antt =====
-- File names against codecs: `detect_by_extension` and `detect_codec` of pipeline/format.rs.
use tekflash.Common.{
  arith, EndsIn, EndsInOne, ends_with-EndsInOne, any, ap, ◌≢◌, ◌↔◌, ◌⊎◌, inl, inr, ℕ, ◌≡◌, refl,
  List, [], ◌∷◌, ◌++◌, Option, Text, codes, ends_with, to_ascii_lowercase, settled,
  ends_with-settled, All, all, all→All, sym, ◌∙◌, true,
}
use tekflash.Pipeline.Format.{InputFormat, detect, detect_by_extension, by_suffix}
use tekflash.Pipeline.Compress.{Codec, from_format}

abbrev pub or_none : Option InputFormat → Codec
or_none Option.none = Codec.none
or_none (Option.some f) = from_format f

-- `detect_codec`, given the head that was read from the file and the file's path.
unfoldable pub detect_codec : List ℕ → Text → Codec
detect_codec head path = elim (detect head) [
  | InputFormat.raw ↦ or_none (detect_by_extension path)
  | f ↦ from_format f
]

-- The endings that `by_suffix` tests for.
abbrev endings : List Text
endings =
    codes ".zst"
    ∷ codes ".zstd"
    ∷ codes ".zsd"
    ∷ codes ".xz"
    ∷ codes ".gz"
    ∷ codes ".bz2"
    ∷ codes ".lz4"
    ∷ codes ".br"
    ∷ codes ".tar"
    ∷ codes ".iso"
    ∷ codes ".img"
    ∷ codes ".bin"
    ∷ codes ".raw"
    ∷ []

by_suffix-append :
    (p s : Text) → All (λ t. settled s t ≡ true) endings → by_suffix (p ++ s) ≡ by_suffix s
unfolding by_suffix
by_suffix-append p s h = rw (
  ends_with-settled p s (codes ".zst") h.0,
  ends_with-settled p s (codes ".zstd") h.1.0,
  ends_with-settled p s (codes ".zsd") h.1.1.0,
  ends_with-settled p s (codes ".xz") h.1.1.1.0,
  ends_with-settled p s (codes ".gz") h.1.1.1.1.0,
  ends_with-settled p s (codes ".bz2") h.1.1.1.1.1.0,
  ends_with-settled p s (codes ".lz4") h.1.1.1.1.1.1.0,
  ends_with-settled p s (codes ".br") h.1.1.1.1.1.1.1.0,
  ends_with-settled p s (codes ".tar") h.1.1.1.1.1.1.1.1.0,
  ends_with-settled p s (codes ".iso") h.1.1.1.1.1.1.1.1.1.0,
  ends_with-settled p s (codes ".img") h.1.1.1.1.1.1.1.1.1.1.0,
  ends_with-settled p s (codes ".bin") h.1.1.1.1.1.1.1.1.1.1.1.0,
  ends_with-settled p s (codes ".raw") h.1.1.1.1.1.1.1.1.1.1.1.1.0,
)

-- The endings of each codec's images.
abbrev pub extensions : Codec → List Text
extensions Codec.none = []
extensions Codec.zstd = codes ".zst" ∷ codes ".zstd" ∷ codes ".zsd" ∷ []
extensions Codec.lz4 = codes ".lz4" ∷ []
extensions Codec.brotli = codes ".br" ∷ []
extensions Codec.xz = codes ".xz" ∷ []
extensions Codec.gzip = codes ".gz" ∷ []
extensions Codec.bzip2 = codes ".bz2" ∷ []

-- The format that each codec writes.
abbrev pub format_of : Codec → InputFormat
format_of Codec.none = InputFormat.raw
format_of Codec.zstd = InputFormat.zstd
format_of Codec.lz4 = InputFormat.lz4
format_of Codec.brotli = InputFormat.brotli
format_of Codec.xz = InputFormat.xz
format_of Codec.gzip = InputFormat.gzip
format_of Codec.bzip2 = InputFormat.bzip2

-- The path ends, in any letter case, in one of the codec's endings.
abbrev pub IsNamed : Codec → Text → Type 0
IsNamed c path = EndsInOne (to_ascii_lowercase path) (extensions c)

ended :
    (s t : Text) (c : Codec)
    → all (settled t) endings ≡ true
    → or_none (by_suffix t) ≡ c
    → EndsIn s t
    → or_none (by_suffix s) ≡ c
ended s t c h e (p, k) =
    ap (λ x. or_none (by_suffix x)) k
    ∙ ap or_none (by_suffix-append p t (all→All (settled t) endings h))
    ∙ e

by_suffix-extensions :
    (s : Text) (c : Codec) → EndsInOne s (extensions c) → or_none (by_suffix s) ≡ c
unfolding by_suffix from_format ends_with
by_suffix-extensions s Codec.none h = elim h [ ]
by_suffix-extensions s Codec.zstd (inl h) = ended s (codes ".zst") Codec.zstd refl refl h
by_suffix-extensions s Codec.zstd (inr (inl h)) = ended s (codes ".zstd") Codec.zstd refl refl h
by_suffix-extensions s Codec.zstd (inr (inr (inl h))) =
    ended s (codes ".zsd") Codec.zstd refl refl h
by_suffix-extensions s Codec.zstd (inr (inr (inr h))) = elim h [ ]
by_suffix-extensions s Codec.lz4 (inl h) = ended s (codes ".lz4") Codec.lz4 refl refl h
by_suffix-extensions s Codec.lz4 (inr h) = elim h [ ]
by_suffix-extensions s Codec.brotli (inl h) = ended s (codes ".br") Codec.brotli refl refl h
by_suffix-extensions s Codec.brotli (inr h) = elim h [ ]
by_suffix-extensions s Codec.xz (inl h) = ended s (codes ".xz") Codec.xz refl refl h
by_suffix-extensions s Codec.xz (inr h) = elim h [ ]
by_suffix-extensions s Codec.gzip (inl h) = ended s (codes ".gz") Codec.gzip refl refl h
by_suffix-extensions s Codec.gzip (inr h) = elim h [ ]
by_suffix-extensions s Codec.bzip2 (inl h) = ended s (codes ".bz2") Codec.bzip2 refl refl h
by_suffix-extensions s Codec.bzip2 (inr h) = elim h [ ]

any-extensions :
    (s : Text) (c : Codec)
    → c ≢ Codec.none
    → or_none (by_suffix s) ≡ c
    → any (ends_with s) (extensions c) ≡ true
unfolding by_suffix from_format
any-extensions s Codec.none n h = absurd (n refl)
any-extensions s Codec.zstd n h = ground arith
any-extensions s Codec.lz4 n h = ground arith
any-extensions s Codec.brotli n h = ground arith
any-extensions s Codec.xz n h = ground arith
any-extensions s Codec.gzip n h = ground arith
any-extensions s Codec.bzip2 n h = ground arith

from_format-format_of : (c : Codec) → from_format (format_of c) ≡ c
unfolding from_format
from_format-format_of Codec.none = refl
from_format-format_of Codec.zstd = refl
from_format-format_of Codec.lz4 = refl
from_format-format_of Codec.brotli = refl
from_format-format_of Codec.xz = refl
from_format-format_of Codec.gzip = refl
from_format-format_of Codec.bzip2 = refl

format_of-from_format :
    (f : InputFormat) (c : Codec) → c ≢ Codec.none → from_format f ≡ c → f ≡ format_of c
unfolding from_format
format_of-from_format InputFormat.raw c n h = absurd (n (sym h))
format_of-from_format InputFormat.tar c n h = absurd (n (sym h))
format_of-from_format InputFormat.encrypted c n h = absurd (n (sym h))
format_of-from_format f c n h = ap format_of h

format_of-some : (c : Codec) → c ≢ Codec.none → format_of c ≢ InputFormat.raw
format_of-some Codec.none n h = n refl
format_of-some c n h = cc

-- What the format of the head and the path make of a codec.
abbrev Decides : InputFormat → Text → Codec → Type 0
Decides f path c = (f ≡ format_of c) ⊎ ((f ≡ InputFormat.raw) × IsNamed c path)

abbrev codec_for : InputFormat → Text → Codec
codec_for f path = elim f [
  | InputFormat.raw ↦ or_none (detect_by_extension path)
  | g ↦ from_format g
]

codec_for-some :
    (f : InputFormat) (path : Text) → f ≢ InputFormat.raw → codec_for f path ≡ from_format f
codec_for-some InputFormat.raw path n = absurd (n refl)
codec_for-some f path n = refl

codec_for-Decides :
    (f : InputFormat) (path : Text) (c : Codec)
    → c ≢ Codec.none
    → codec_for f path ≡ c
    → Decides f path c
unfolding detect_by_extension
codec_for-Decides InputFormat.raw path c n h =
    let s = to_ascii_lowercase path in
    inr (refl, ends_with-EndsInOne s (extensions c) (any-extensions s c n h))
codec_for-Decides f path c n h = inl (format_of-from_format f c n h)

Decides-codec_for :
    (f : InputFormat) (path : Text) (c : Codec)
    → c ≢ Codec.none
    → Decides f path c
    → codec_for f path ≡ c
unfolding detect_by_extension
Decides-codec_for f path c n (inl e) =
    codec_for-some f path (λ k. format_of-some c n (sym e ∙ k))
    ∙ ap from_format e
    ∙ from_format-format_of c
Decides-codec_for f path c n (inr (e, named)) =
    ap (λ g. codec_for g path) e ∙ by_suffix-extensions (to_ascii_lowercase path) c named

-- A codec other than none is detected exactly when the head shows the magic number of its format, or
-- shows none and the path ends, in any letter case, in an ending of the codec: .zst, .zstd or .zsd for
-- Zstandard, and .lz4, .br, .xz, .gz and .bz2 for the others. A path of any other ending, as .tar or
-- .img, has no codec behind a head without a magic number.
pub detect_codec_iff :
    (head : List ℕ) (path : Text) (c : Codec)
    → c ≢ Codec.none
    → (detect_codec head path ≡ c)
      ↔ ((detect head ≡ format_of c) ⊎ ((detect head ≡ InputFormat.raw) × IsNamed c path))
unfolding detect_codec
detect_codec_iff head path c n =
    (codec_for-Decides (detect head) path c n, Decides-codec_for (detect head) path c n)
