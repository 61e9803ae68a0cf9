-- ===== src/Params/Target.antt =====
-- src/padded.rs and the head of params.rs: the cache line of the machine that the crate is built for.
-- The width of a pointer is a parameter of its own: an architecture may have ABIs of two widths.
use ptab.Common.{ℕ, ◌*◌, ◌/◌, ◌^◌, ◌≤◌, ◌≡◌, refl, sym, ap, ◌∙◌, arith}

pub data Arch : Type 0 where
  x86_64 aarch64 arm64ec powerpc64 : Arch
  arm mips mips32r6 mips64 mips64r6 sparc hexagon : Arch
  m68k s390x other : Arch

-- `repr(align(…))` of `CachePadded`.
unfoldable pub align : Arch → ℕ
align x86_64 = 128
align aarch64 = 128
align arm64ec = 128
align powerpc64 = 128
align arm = 32
align mips = 32
align mips32r6 = 32
align mips64 = 32
align mips64r6 = 32
align sparc = 32
align hexagon = 32
align m68k = 16
align s390x = 256
align other = 64

pub data PointerWidth : Type 0 where
  bits32 bits64 : PointerWidth

pub record Target : Type 0 where
  pub arch : Arch
  pub pointer_width : PointerWidth

abbrev pub bits : PointerWidth → ℕ
bits bits32 = 32
bits bits64 = 64

-- `size_of::<AtomicUsize>()`, in bytes.
abbrev pub bytes : PointerWidth → ℕ
bytes bits32 = 4
bytes bits64 = 8

abbrev pub pointer_size : Target → ℕ
pointer_size t = bytes t.pointer_width

abbrev pub word_bits : Target → ℕ
word_bits t = bits t.pointer_width

-- `size_of::<CachePadded<u8>>()`: one byte, padded to the alignment.
unfoldable pub cache_line : Target → ℕ
unfolding align
cache_line t = align t.arch

unfoldable pub cache_line_slots : Target → ℕ
unfolding cache_line
cache_line_slots t = cache_line t / pointer_size t

-- The base-2 logarithm of the number of slots in a cache line.
line_log : Arch → PointerWidth → ℕ
line_log x86_64 bits32 = 5
line_log aarch64 bits32 = 5
line_log arm64ec bits32 = 5
line_log powerpc64 bits32 = 5
line_log s390x bits32 = 6
line_log m68k bits32 = 2
line_log other bits32 = 4
line_log _ bits32 = 3
line_log x86_64 bits64 = 4
line_log aarch64 bits64 = 4
line_log arm64ec bits64 = 4
line_log powerpc64 bits64 = 4
line_log s390x bits64 = 5
line_log m68k bits64 = 1
line_log other bits64 = 3
line_log _ bits64 = 2

pub index_bits : Target → ℕ
index_bits t = line_log t.arch t.pointer_width

line_facts :
    (a : Arch) (p : PointerWidth)
    → (align a / bytes p ≡ 2 ^ line_log a p)
      × (align a ≡ 2 ^ line_log a p * bytes p)
      × (1 ≤ line_log a p)
      × (line_log a p ≤ 6)
unfolding align line_log
line_facts x86_64 bits32 = (refl, refl, omega arith, omega arith)
line_facts x86_64 bits64 = (refl, refl, omega arith, omega arith)
line_facts _ bits32 = (refl, refl, omega arith, omega arith)
line_facts _ bits64 = (refl, refl, omega arith, omega arith)

-- A cache line holds a power of two of slots, and nothing else.
pub cache_line_slots-pow :
    (t : Target)
    → (cache_line_slots t ≡ 2 ^ index_bits t)
      × (cache_line t ≡ cache_line_slots t * pointer_size t)
      × (1 ≤ index_bits t)
      × (index_bits t ≤ 6)
unfolding cache_line_slots index_bits
cache_line_slots-pow t =
    let (slots, line, low, high) = line_facts t.arch t.pointer_width in
    (slots, line ∙ ap (λ (k : ℕ). k * pointer_size t) (sym slots), low, high)
