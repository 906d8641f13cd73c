-- ===== src/Tests/Loading.antt =====
-- A kernel with pages of 4096 bytes that grants every mapping at a page, and an object of two
-- segments.
use mathlib.Core.Path.{subst}
use xob.Base.{
  Bool, sym, ap, ◌∙◌, ℕ, ◌+◌, ◌-◌, ◌*◌, ◌/◌, ◌%◌, ◌^◌, ◌≤◌, ◌<◌, ◌≡◌, refl, arith, true, false,
  ◌&&◌, Option, none, some, List, [], ◌∷◌, leb, ltb, ◌==◌, if◌then◌else◌,
}
use xob.Outcome.{ok}
use xob.ExecPool.{ExecPool}
use xob.Memory.{Memory}
use xob.Loader.{
  Os, Mapping, MapFlags, Segment, file_mapping, load_segments, reservation, reserved_size,
  generate_suitable_base_addr, base_segment_align, segments_end,
}
use xob.Loader.Align.{IsNextMultiple}
use xob.Loader.Laws.{OsLaws, is_fixed}
use xob.Loader.AllSegments.{load_segments-Present, Every, Present, Loadable, Untouched}
use xob.Loader.BaseAddr.{generate_suitable_base_addr-Fits}
use xob.Tests.Chunks.{pool}

abbrev pub contents : ℕ → ℕ → ℕ
contents fd x = (fd + x) % 256

abbrev file_byte : Option ℕ → ℕ → ℕ
file_byte none x = 0
file_byte (some fd) x = contents fd x

abbrev mapped_at : Memory → Mapping → ℕ → Memory
mapped_at m c a x =
    if leb a x && ltb x (a + c.len) then file_byte c.fd (c.offset + (x - a)) else m x

abbrev pub hint_for : MapFlags → ℕ → ℕ
hint_for MapFlags.anonymous addr = 4096 * 1024
hint_for _ addr = addr

abbrev pub hint : Mapping → ℕ
hint c = hint_for c.flags c.addr

abbrev pub kernel : Os
kernel = record {
  page_size = 4096;
  mmap = λ m c. if hint c % 4096 == 0 then some (mapped_at m c (hint c), hint c) else none;
  munmap = λ m a n. m;
  memset = λ m start value n x. if leb start x && ltb x (start + n) then value else m x;
}

hint_for-fixed : (flags : MapFlags) (addr : ℕ) → is_fixed flags ≡ true → hint_for flags addr ≡ addr
hint_for-fixed MapFlags.anonymous addr h = cc
hint_for-fixed MapFlags.fixed_noreplace addr h = refl
hint_for-fixed MapFlags.anonymous_fixed addr h = refl

granted_if :
    (b : Bool) (x y : Memory × ℕ)
    → ◌≡◌ {A = Option (Memory × ℕ)} (if b then some x else none) (some y)
    → (b ≡ true) × (x ≡ y)
granted_if true x y h = (refl, cc)
granted_if false x y h = cc

granted :
    (m m' : Memory) (c : Mapping) (a : ℕ)
    → kernel.mmap m c ≡ some (m', a)
    → (hint c % 4096 ≡ 0) × (mapped_at m c (hint c) ≡ m') × (hint c ≡ a)
granted m m' c a h =
    let (on_page, same) =
      granted_if (hint c % 4096 == 0) (mapped_at m c (hint c), hint c) (m', a) h in
    (ground (arith, on_page), ap (λ (r : Memory × ℕ). r.0) same, ap (λ (r : Memory × ℕ). r.1) same)

abbrev pub text : Segment
text = record {
  address = 0;
  size = 5000;
  align = 4096;
  file_offset = 0;
  file_size = 5000;
  writable = false;
  readable = true;
  executable = true;
}

-- A segment that starts inside a page, and ends in zeros on another.
abbrev pub bss : Segment
bss = record {
  address = 8200;
  size = 9000;
  align = 4096;
  file_offset = 4104;
  file_size = 100;
  writable = true;
  readable = true;
  executable = false;
}

mapped_inside :
    (m : Memory) (c : Mapping) (a fd x : ℕ)
    → c.fd ≡ some fd
    → x < c.len
    → mapped_at m c a (a + x) ≡ contents fd (c.offset + x)
mapped_inside m c a fd x e lt = rw e (ground arith)

kernel-OsLaws : OsLaws kernel contents
kernel-OsLaws = record {
  page_bits = 12;
  page_is_power = refl;
  at_hint = λ m m' c a fixed h. sym (granted m m' c a h).2 ∙ hint_for-fixed c.flags c.addr fixed;
  page_aligned = λ m m' c a h.
      let (on_page, mem, at) = granted m m' c a h in (a / 4096, omega (arith, on_page, at));
  maps_file = λ m m' c a fd x h e lt.
      let (on_page, mem, at) = granted m m' c a h in
      subst (λ (m'' : Memory). m'' (a + x) ≡ contents fd (c.offset + x)) mem
        (subst (λ (a' : ℕ). mapped_at m c (hint c) (a' + x) ≡ contents fd (c.offset + x)) at
          (mapped_inside m c (hint c) fd x e lt));
  maps_pages = λ m m' c a q x h le out.
      let (on_page, mem, at) = granted m m' c a h in
      subst (λ (m'' : Memory). m'' x ≡ m x) mem (ground (arith, at, le, out));
  memset_fills = λ m start value n x. refl;
}

abbrev base : ℕ
base = 4096 * 1024

abbrev blank : Memory
blank x = 7

bss_granted :
    (m : Memory)
    → kernel.mmap m (file_mapping ⦃os = kernel⦄ bss 3 base)
      ≡ some (mapped_at m (file_mapping ⦃os = kernel⦄ bss 3 base) (base + 8192), base + 8192)
unfolding file_mapping
bss_granted m = refl

text_granted :
    (m : Memory)
    → kernel.mmap m (file_mapping ⦃os = kernel⦄ text 3 base)
      ≡ some (mapped_at m (file_mapping ⦃os = kernel⦄ text 3 base) base, base)
unfolding file_mapping
text_granted m = refl

text-Loadable : Loadable kernel 3 base text
text-Loadable = record {
  shorter = omega arith;
  fits = omega arith;
  covered = omega arith;
  accepted = λ m. (mapped_at m (file_mapping ⦃os = kernel⦄ text 3 base) base, base, text_granted m);
}

bss-Loadable : Loadable kernel 3 base bss
bss-Loadable = record {
  shorter = omega arith;
  fits = omega arith;
  covered = omega arith;
  accepted = λ m. (
    mapped_at m (file_mapping ⦃os = kernel⦄ bss 3 base) (base + 8192),
    base + 8192,
    bss_granted m,
  );
}

abbrev pub object : List Segment
object = text ∷ bss ∷ []

load_segments-Present_example :
    (m' : Memory) × (pool' : ExecPool) × (load_segments ⦃os = kernel⦄ blank pool object 3 base
      ≡ ok (m', pool'))
    × Every (Present kernel 3 base contents m' pool') object
    × Untouched kernel 3 base object blank m' pool pool'
load_segments-Present_example =
    load_segments-Present ⦃os = kernel⦄ kernel-OsLaws 3 base blank pool object
      (text-Loadable, (bss-Loadable, tt))
      ((1026, omega arith, (omega arith, tt)), ((1029, omega arith, tt), tt))

reserved_at :
    kernel.mmap blank (reservation ⦃os = kernel⦄ object 4096)
    ≡ some (mapped_at blank (reservation ⦃os = kernel⦄ object 4096) base, base)
unfolding reservation
reserved_at = refl

object_align : base_segment_align object ≡ some 4096
unfolding base_segment_align
object_align = refl

object_end : segments_end object + 4096 ≤ 2 ^ 64
unfolding segments_end
object_end = omega arith

generate_suitable_base_addr-Fits_example :
    (base_addr : ℕ) × (generate_suitable_base_addr ⦃os = kernel⦄ blank object
      ≡ ok (mapped_at blank (reservation ⦃os = kernel⦄ object 4096) base, base_addr))
    × IsNextMultiple base 4096 base_addr
    × Every
        (λ s. base_addr + s.address + s.size ≤ base + reserved_size ⦃os = kernel⦄ object 4096)
        object
generate_suitable_base_addr-Fits_example =
    generate_suitable_base_addr-Fits ⦃os = kernel⦄ kernel-OsLaws blank
      (mapped_at blank (reservation ⦃os = kernel⦄ object 4096) base) object 12 base object_align
      object_end (omega arith) reserved_at
