-- ===== src/Loader/Placed.antt =====
-- The pool of compiled code under the first half of src/loader.rs: libraries and segments.
use mathlib.Core.Path.{subst}
use xob.Base.{
  ℕ, ◌≡◌, refl, ◌∙◌, ◌&&◌, List, [], ◌∷◌, Option, none, some, inl, inr, Bool-cases, ltb, ◌==◌,
}
use xob.Outcome.{ok, unwrap, ok-bind, ok-injective}
use xob.Memory.{Memory, Name, starts_with}
use xob.ExecPool.{ExecPool, define_exec_range}
use xob.Runner.Cache.{WellPlaced}
use xob.Wrapped.{WrappedLib, try_load}
use xob.Wrapped.Overrides.{Host}
use xob.Loader.{Os, Segment, page_offset, file_mapping, define_code, load_segment, load_segments}
use xob.Loader.Symbols.{Loading}
use xob.Loader.InitFini.{Dynamic}
use xob.Loader.Object.{
  already_loaded, dynamic_linker, dt_needed, push_lib, handle_needed, load_dynamic, load_needed,
}

-- The pool is in order and no object has joined.
abbrev pub Held : Loading → Loading → Type 0
Held s s' = WellPlaced s'.pool × (s'.objects.objects ≡ s.objects.objects)

pub Held-trans : (s t u : Loading) → Held s t → Held t u → Held s u
Held-trans s t u (w, e) (w', e') = (w', e' ∙ e)

-- Another list of ranges is no matter.
define_code-WellPlaced :
    (pool : ExecPool) (segment : Segment) (start stop : ℕ)
    → WellPlaced pool
    → WellPlaced (define_code pool segment start stop)
unfolding define_code define_exec_range
define_code-WellPlaced pool segment start stop w = elim (Bool-cases segment.executable) [
  | inl code ↦ rw code (record {
    regions = record { within = w.regions.within; clear = w.regions.clear };
    apart = w.apart;
    stored = w.stored;
  })
  | inr plain ↦ rw plain w
]

module _ ⦃os : Os⦄ where
  load_segment-WellPlaced :
      (m m' : Memory) (pool pool' : ExecPool) (segment : Segment) (fd base_addr : ℕ)
      → WellPlaced pool
      → load_segment m pool segment fd base_addr ≡ ok (m', pool')
      → WellPlaced pool'
  unfolding load_segment
  load_segment-WellPlaced m m' pool pool' segment fd base_addr w e =
      elim (Bool-cases (ltb segment.file_offset (page_offset segment base_addr))) [
        | inl before ↦ let stuck = rw before at e in cc
        | inr covered ↦
            (let ((mapped, at), e1, e2) =
                ok-bind (unwrap (os.mmap m (file_mapping segment fd base_addr))) _ (m', pool')
                  (rw covered at e) in
              subst (λ (r : Memory × ExecPool). WellPlaced r.1) (ok-injective e2)
                (define_code-WellPlaced pool segment at _ w))
      ]

  pub load_segments-WellPlaced :
      (m m' : Memory) (pool pool' : ExecPool) (segments : List Segment) (fd base_addr : ℕ)
      → WellPlaced pool
      → load_segments m pool segments fd base_addr ≡ ok (m', pool')
      → WellPlaced pool'
  unfolding load_segments
  load_segments-WellPlaced m m' pool pool' [] fd base_addr w e =
      subst (λ (r : Memory × ExecPool). WellPlaced r.1) (ok-injective e) w
  load_segments-WellPlaced m m' pool pool' (s ∷ ss) fd base_addr w e =
      let ((m1, pool1), e1, e2) = ok-bind (load_segment m pool s fd base_addr) _ (m', pool') e in
      load_segments-WellPlaced m1 m' pool1 pool' ss fd base_addr
        (load_segment-WellPlaced m m1 pool pool1 s fd base_addr w e1) e2

module _ ⦃h : Host⦄ (fuel : ℕ) where
  push_lib-Held :
      (s s' : Loading) (lib : Option WrappedLib)
      → WellPlaced s.pool
      → push_lib s lib ≡ ok s'
      → Held s s'
  unfolding push_lib
  push_lib-Held s s' none w e = cc
  push_lib-Held s s' (some lib) w e = subst (λ (t : Loading). Held s t) (ok-injective e) (w, refl)

  handle_needed-Held :
      (s s' : Loading) (name : Name)
      → WellPlaced s.pool
      → handle_needed fuel s name ≡ ok s'
      → Held s s'
  unfolding handle_needed
  handle_needed-Held s s' name w e =
      elim (Bool-cases (already_loaded s.objects.wrapped_libs name)) [
        | inl there ↦ subst (λ (t : Loading). Held s t) (ok-injective (rw there at e)) (w, refl)
        | inr missing ↦ elim (Bool-cases (h.is_utf8 name && starts_with name dynamic_linker)) [
          | inl linker ↦
              subst (λ (t : Loading). Held s t) (ok-injective (rw (missing, linker) at e)) (w, refl)
          | inr other ↦
              (let (lib, e1, e2) =
                  ok-bind (try_load fuel s.memory name) _ s' (rw (missing, other) at e) in
                push_lib-Held s s' lib w e2)
        ]
      ]

  load_dynamic-Held :
      (s s' : Loading) (string : ℕ → Option Name) (dynamic : Dynamic)
      → WellPlaced s.pool
      → load_dynamic fuel s string dynamic ≡ ok s'
      → Held s s'
  unfolding load_dynamic
  load_dynamic-Held s s' string dynamic w e = elim (Bool-cases (dynamic.tag == dt_needed)) [
    | inl needed ↦
        (let (name, e1, e2) = ok-bind (unwrap (string dynamic.val)) _ s' (rw needed at e) in
          handle_needed-Held s s' name w e2)
    | inr other ↦ subst (λ (t : Loading). Held s t) (ok-injective (rw other at e)) (w, refl)
  ]

  pub load_needed-Held :
      (s s' : Loading) (string : ℕ → Option Name) (dynamics : List Dynamic)
      → WellPlaced s.pool
      → load_needed fuel s string dynamics ≡ ok s'
      → Held s s'
  unfolding load_needed
  load_needed-Held s s' string [] w e = subst (λ (t : Loading). Held s t) (ok-injective e) (w, refl)
  load_needed-Held s s' string (d ∷ ds) w e =
      let (t, e1, e2) = ok-bind (load_dynamic fuel s string d) _ s' e in
      let held = load_dynamic-Held s t string d w e1 in
      Held-trans s t s' held (load_needed-Held t s' string ds held.0 e2)
