-- ===== src/Pipeline/Buffer.antt =====
-- crates/tekflash-core/src/pipeline/buffer.rs. A buffer is its capacity and the number of its valid
-- bytes; a lock that is taken elsewhere when a buffer is dropped is an argument.
use tekflash.Common.{
  ℕ, zero, suc, ◌+◌, ◌-◌, ◌*◌, ◌/◌, ◌%◌, ◌^◌, ◌<◌, ◌≤◌, ◌≡◌, refl, sym, subst, Bool, true, false,
  List, [], ◌∷◌, All, arith,
}

abbrev pub align : ℕ
align = 4096

pub record Buffer : Type 0 where
  pub cap : ℕ
  pub len : ℕ

-- The free allocations are their capacities, the last one that came back first.
pub record BufferPool : Type 0 where
  pub buf_size : ℕ
  pub free : List ℕ

-- `(n + align - 1) & !(align - 1)`, for an alignment that is a power of two: the mask clears the
-- remainder. The sum of two usize wraps in a release build.
unfoldable pub align_up : ℕ → ℕ → ℕ
align_up n a = let m = (n + (a - 1)) % 2 ^ 64 in m / a * a

abbrev copies : ℕ → ℕ → List ℕ
copies zero size = []
copies (suc n) size = size ∷ copies n size

unfoldable pub new : ℕ → ℕ → BufferPool
unfolding align_up
new buf_size initial = record {
  buf_size = align_up buf_size align;
  free = copies initial (align_up buf_size align);
}

abbrev taken : BufferPool → List ℕ → Buffer × BufferPool
taken pool [] = (record { cap = pool.buf_size; len = 0 }, pool)
taken pool (cap ∷ free) = (record { cap = cap; len = 0 }, record pool { free = free })

unfoldable pub acquire : BufferPool → Buffer × BufferPool
acquire pool = taken pool pool.free

unfoldable pub set_len : ℕ → Buffer → Buffer
set_len n buf = record buf { len = n }

-- A buffer that is dropped goes back unless the pool is locked.
unfoldable pub drop_buffer : (locked : Bool) → Buffer → BufferPool → BufferPool
drop_buffer true buf pool = pool
drop_buffer false buf pool = record pool { free = buf.cap ∷ pool.free }

-- Every free buffer has the pool's size.
abbrev pub Sized : BufferPool → Type 0
Sized pool = All (λ cap. cap ≡ pool.buf_size) pool.free

-- What a stage may do with a pool, given the buffers that it holds.
pub data PoolStep : Type 0 where
  acquires : PoolStep
  drops : (locked : Bool) → PoolStep

abbrev dropped : Bool → BufferPool → List Buffer → BufferPool × List Buffer
dropped locked pool [] = (pool, [])
dropped locked pool (buf ∷ held) = (drop_buffer locked buf pool, held)

unfoldable pub use_pool : List PoolStep → BufferPool → List Buffer → BufferPool × List Buffer
unfolding acquire drop_buffer
use_pool [] pool held = (pool, held)
use_pool (acquires ∷ steps) pool held =
    let (buf, pool') = acquire pool in use_pool steps pool' (buf ∷ held)
use_pool (drops locked ∷ steps) pool held =
    let (pool', held') = dropped locked pool held in use_pool steps pool' held'

align_up-multiple :
    (n : ℕ)
    → n + 4095 < 2 ^ 64
    → (align_up n align % align ≡ 0) × (n ≤ align_up n align) × (align_up n align < n + align)
unfolding align_up
align_up-multiple n h = (omega arith, omega arith, omega arith)

copies-All : (n size : ℕ) → All (λ cap. cap ≡ size) (copies n size)
copies-All zero size = tt
copies-All (suc n) size = (refl, copies-All n size)

taken-Sized :
    (pool : BufferPool) (free : List ℕ) (size : ℕ)
    → pool.buf_size ≡ size
    → All (λ cap. cap ≡ size) pool.free
    → All (λ cap. cap ≡ size) free
    → ((taken pool free).0.cap ≡ size)
      × ((taken pool free).1.buf_size ≡ size)
      × All (λ cap. cap ≡ size) (taken pool free).1.free
taken-Sized pool [] size s f g = (s, s, f)
taken-Sized pool (cap ∷ free) size s f (c, g) = (c, s, g)

use_pool-Sized :
    (steps : List PoolStep) (pool : BufferPool) (held : List Buffer) (size : ℕ)
    → pool.buf_size ≡ size
    → All (λ cap. cap ≡ size) pool.free
    → All (λ buf. buf.cap ≡ size) held
    → ((use_pool steps pool held).0.buf_size ≡ size)
      × All (λ cap. cap ≡ size) (use_pool steps pool held).0.free
      × All (λ buf. buf.cap ≡ size) (use_pool steps pool held).1
unfolding use_pool acquire drop_buffer
use_pool-Sized [] pool held size s f h = (s, f, h)
use_pool-Sized (acquires ∷ steps) pool held size s f h =
    let (c, s', f') = taken-Sized pool pool.free size s f f in
    use_pool-Sized steps (acquire pool).1 ((acquire pool).0 ∷ held) size s' f' (c, h)
use_pool-Sized (drops locked ∷ steps) pool [] size s f h = use_pool-Sized steps pool [] size s f tt
use_pool-Sized (drops true ∷ steps) pool (buf ∷ held) size s f (c, h) =
    use_pool-Sized steps pool held size s f h
use_pool-Sized (drops false ∷ steps) pool (buf ∷ held) size s f (c, h) =
    use_pool-Sized steps (record pool { free = buf.cap ∷ pool.free }) held size s (c, f) h

each_rounded :
    (n : ℕ)
    → (align_up n align % align ≡ 0) × (n ≤ align_up n align) × (align_up n align < n + align)
    → (held : List Buffer) → All (λ buf. buf.cap ≡ align_up n align) held
    → All (λ buf. (buf.cap % align ≡ 0) × (n ≤ buf.cap) × (buf.cap < n + align)) held
each_rounded n p [] h = tt
each_rounded n p (buf ∷ held) (c, h) =
    (subst (λ x. (x % align ≡ 0) × (n ≤ x) × (x < n + align)) (sym c) p, each_rounded n p held h)

-- Whatever the stages acquire and drop, also while the pool is locked, each buffer that they hold has
-- the pool's size: a multiple of the alignment, not below the size that was asked for and less than
-- one alignment above it, where the rounding does not overflow.
pub use_pool-align_up :
    (buf_size initial : ℕ) (steps : List PoolStep)
    → buf_size + 4095 < 2 ^ 64
    → All
        (λ buf. (buf.cap % align ≡ 0) × (buf_size ≤ buf.cap) × (buf.cap < buf_size + align))
        (use_pool steps (new buf_size initial) []).1
unfolding new
use_pool-align_up buf_size initial steps h =
    let (s, f, held) =
      use_pool-Sized steps (new buf_size initial) [] (align_up buf_size align) refl
        (copies-All initial (align_up buf_size align)) tt in
    each_rounded buf_size (align_up-multiple buf_size h)
      (use_pool steps (new buf_size initial) []).1 held
