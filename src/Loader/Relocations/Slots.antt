-- ===== src/Loader/Relocations/Slots.antt =====
-- What the places of the relocations hold afterwards.
use mathlib.Core.Path.{subst}
use native.Mathlib.Nat.{mod-mod}
use xob.Base.{
  ℕ, ◌+◌, ◌%◌, ◌^◌, ◌<◌, ◌≡◌, ◌||◌, List, [], ◌∷◌, Option, none, some, refl, sym, ap, ◌∙◌, arith,
  Bool-cases, inl, inr, ◌==◌,
}
use xob.Outcome.{ok, unwrap, ok-bind, ok-unwrap, ok-injective}
use xob.Memory.{
  Memory, Name, NameMap, get_name, read_u64, write_u64, read_u64-write_u64, read_le-cong,
  write_u64-outside,
}
use xob.Vendor.{Vendor}
use xob.ExecPool.{Callbacks}
use xob.Finalize.{Platform}
use xob.Wrapped.Overrides.{Host}
use xob.Loader.Symbols.{Loading}
use xob.Loader.Relocations.Meaning.{
  prefer, address_of, address-kept, Relocated, relative, bound, skipped, AllRelocated, Outside,
  OutsideAll, ApartFrom, Distinct, Outside-second, Outside-first,
}
use xob.Loader.Symbols.Cached.{Keeps, get_symbol-Keeps}
use xob.Loader.Relocations.{
  Relocation, RelocationSymbol, write_at, symbol_value, resolve_symbol, resolve_relocation,
  bind_symbol, resolve_as, resolve_relocations, r_aarch64_relative, r_aarch64_glob_dat,
  r_aarch64_jump_slot,
}

module _ (symbol_by_index : ℕ → Option RelocationSymbol) (base_addr : ℕ)
    (local_symbols : NameMap) where
  module _ ⦃h : Host⦄ ⦃v : Vendor⦄ ⦃cb : Callbacks⦄ ⦃p : Platform⦄ (fuel : ℕ) where
    -- One relocation: known symbols stay, the place is relocated, the rest of memory is as it was.
    pub record Step (s s' : Loading) (r : Relocation) : Type 0 where
      pub kept :
          (name : Name) (addr : ℕ)
          → get_name s.objects.global_symbols name ≡ some addr
          → get_name s'.objects.global_symbols name ≡ some addr
      pub relocated :
          Relocated symbol_by_index base_addr local_symbols s'.objects.global_symbols s.memory
            s'.memory r
      pub elsewhere :
          (x : ℕ) → Outside symbol_by_index base_addr local_symbols x r → s'.memory x ≡ s.memory x

    symbol_value-lem :
        (s s' : Loading) (name : Name) (val : ℕ) (known : Option ℕ)
        → symbol_value fuel symbol_by_index base_addr local_symbols s name known ≡ ok (s', val)
        → Keeps s s' × (prefer known (get_name s'.objects.global_symbols name) ≡ some val)
    unfolding symbol_value prefer
    symbol_value-lem s s' name val (some a) e =
        subst (λ (r : Loading × ℕ). Keeps s r.0 × (some a ≡ some r.1)) (ok-injective e)
          (record { same_memory = refl; kept = λ n x k. k }, refl)
    symbol_value-lem s s' name val none e =
        let (keeps, there, again) = get_symbol-Keeps fuel s s' name val e in (keeps, there)

    -- A write at the place of a relocation, after a step that kept memory and symbols.
    write_at-Step :
        (s t : Loading) (r : Relocation) (value : ℕ)
        → Keeps s t
        → (read_u64 (write_u64 t.memory (base_addr + r.addr) value) (base_addr + r.addr)
              ≡ value % 2 ^ 64
            → Relocated symbol_by_index base_addr local_symbols t.objects.global_symbols s.memory
                (write_u64 t.memory (base_addr + r.addr) value)
                r)
        → Step s (write_at t (base_addr + r.addr) value) r
    write_at-Step s t r value keeps relocated = record {
      kept = keeps.kept;
      relocated = relocated (read_u64-write_u64 t.memory (base_addr + r.addr) value);
      elsewhere = λ x out.
          write_u64-outside t.memory (base_addr + r.addr) value x out
          ∙ ap (λ (m : Memory). m x) keeps.same_memory;
    }

    resolve_symbol-Step :
        (s s' : Loading) (r : Relocation) (idx : ℕ) (symbol : RelocationSymbol)
        → r.target ≡ some idx
        → symbol_by_index idx ≡ some symbol
        → resolve_symbol fuel symbol_by_index base_addr local_symbols s r.addr symbol ≡ ok s'
        → Step s s' r
    unfolding resolve_symbol address_of
    resolve_symbol-Step s s' r idx symbol target there e = elim (Bool-cases symbol.is_weak) [
      | inl weak ↦
          let same : s ≡ s' = ok-injective (rw weak at e) in
          subst (λ (t : Loading). Step s t r) same
            (record {
              kept = λ n a k. k;
              relocated = skipped idx symbol target there weak refl;
              elsewhere = λ x out. refl;
            })
      | inr strong ↦
          let ((t, val), found, wrote) =
            ok-bind
              (symbol_value fuel symbol_by_index base_addr local_symbols s symbol.name
                (get_name local_symbols symbol.name))
              _ s' (rw strong at e) in
          let (keeps, address) =
            symbol_value-lem s t symbol.name val (get_name local_symbols symbol.name) found in
          subst (λ (t' : Loading). Step s t' r) (ok-injective wrote)
            (write_at-Step s t r val keeps
              (λ read. bound idx val symbol target there strong address read))
    ]

    bind_symbol-Step :
        (s s' : Loading) (r : Relocation)
        → bind_symbol fuel symbol_by_index base_addr local_symbols s r ≡ ok s'
        → Step s s' r
    unfolding bind_symbol
    bind_symbol-Step s s' r e =
        let (idx, e1, e2) = ok-bind (unwrap r.target) _ s' e in
        let (symbol, e3, e4) = ok-bind (unwrap (symbol_by_index idx)) _ s' e2 in
        resolve_symbol-Step s s' r idx symbol (ok-unwrap _ _ e1) (ok-unwrap _ _ e3) e4

    resolve_as-Step :
        (s s' : Loading) (r : Relocation) (ty : ℕ)
        → r.r_type ≡ some ty
        → resolve_as fuel symbol_by_index base_addr local_symbols s r ty ≡ ok s'
        → Step s s' r
    unfolding resolve_as
    resolve_as-Step s s' r ty typed e = elim (Bool-cases (ty == r_aarch64_relative)) [
      | inl is_relative ↦
          let ty_is : ty ≡ r_aarch64_relative = ground (arith, is_relative) in
          let wrote : write_at s (base_addr + r.addr) ((base_addr + r.addend) % 2 ^ 64) ≡ s' =
            ok-injective (rw is_relative at e) in
          subst (λ (t : Loading). Step s t r) wrote
            (write_at-Step s s r ((base_addr + r.addend) % 2 ^ 64)
              (record { same_memory = refl; kept = λ n a k. k })
              (λ read.
                relative (rw (sym ty_is) typed) (read ∙ mod-mod (base_addr + r.addend) (2 ^ 64))))
      | inr other ↦ elim (Bool-cases (ty == r_aarch64_glob_dat || ty == r_aarch64_jump_slot)) [
        | inl binds ↦ bind_symbol-Step s s' r (rw (other, binds) at e)
        | inr unknown ↦ let no_result = (rw (other, unknown) at e) in cc
      ]
    ]

    resolve_relocation-Step :
        (s s' : Loading) (r : Relocation)
        → resolve_relocation fuel symbol_by_index base_addr local_symbols s r ≡ ok s'
        → Step s s' r
    unfolding resolve_relocation
    resolve_relocation-Step s s' r e =
        let (ty, e1, e2) = ok-bind (unwrap r.r_type) _ s' e in
        resolve_as-Step s s' r ty (ok-unwrap _ _ e1) e2

    -- A place that later writes do not touch, with more symbols known.
    Relocated-later :
        (g g' : NameMap) (before m m' : Memory) (r : Relocation)
        → ((name : Name) (a : ℕ) → get_name g name ≡ some a → get_name g' name ≡ some a)
        → read_u64 m' (base_addr + r.addr) ≡ read_u64 m (base_addr + r.addr)
        → Relocated symbol_by_index base_addr local_symbols g before m r
        → Relocated symbol_by_index base_addr local_symbols g' before m' r
    Relocated-later g g' before m m' r kept same (relative ty read) = relative ty (same ∙ read)
    Relocated-later g g' before m m' r kept same
          (bound idx val symbol target there strong address read) =
        bound idx val symbol target there strong
          (address-kept local_symbols g g' symbol.name val kept address) (same ∙ read)
    Relocated-later g g' before m m' r kept same (skipped idx symbol target there weak read) =
        skipped idx symbol target there weak (same ∙ read)

    Relocated-earlier :
        (g : NameMap) (before before' m : Memory) (r : Relocation)
        → read_u64 before' (base_addr + r.addr) ≡ read_u64 before (base_addr + r.addr)
        → Relocated symbol_by_index base_addr local_symbols g before' m r
        → Relocated symbol_by_index base_addr local_symbols g before m r
    Relocated-earlier g before before' m r same (relative ty read) = relative ty read
    Relocated-earlier g before before' m r same
          (bound idx val symbol target there strong address read) =
        bound idx val symbol target there strong address read
    Relocated-earlier g before before' m r same (skipped idx symbol target there weak read) =
        skipped idx symbol target there weak (read ∙ same)

    -- The same for all relocations that are apart from the one that was written.
    AllRelocated-earlier :
        (g : NameMap) (s t : Loading) (m : Memory) (r : Relocation) (qs : List Relocation)
        → ApartFrom symbol_by_index base_addr local_symbols r qs
        → ((x : ℕ) → Outside symbol_by_index base_addr local_symbols x r → t.memory x ≡ s.memory x)
        → AllRelocated symbol_by_index base_addr local_symbols g t.memory m qs
        → AllRelocated symbol_by_index base_addr local_symbols g s.memory m qs
    AllRelocated-earlier g s t m r [] apart same all = tt
    AllRelocated-earlier g s t m r (q ∷ qs) (a, apart) same (one, all) = (
      Relocated-earlier g s.memory t.memory m q
          (read_le-cong 8 s.memory t.memory (base_addr + q.addr) (λ x lt.
            same (base_addr + q.addr + x)
              (Outside-second symbol_by_index base_addr local_symbols r q x a lt)))
          one,
      AllRelocated-earlier g s t m r qs apart same all,
    )

    Apart-Outside :
        (r : Relocation) (qs : List Relocation) (x : ℕ)
        → ApartFrom symbol_by_index base_addr local_symbols r qs
        → x < 8
        → OutsideAll symbol_by_index base_addr local_symbols (base_addr + r.addr + x) qs
    Apart-Outside r [] x apart lt = tt
    Apart-Outside r (q ∷ qs) x (a, apart) lt = (
      Outside-first symbol_by_index base_addr local_symbols r q x a lt,
      Apart-Outside r qs x apart lt,
    )

    -- Where no two relocations share a byte, a run that returns has put into each place what its
    -- relocation asks for: the relocated address, or the address of the symbol in the object or else
    -- among the global symbols, or nothing new for a weak symbol. The rest of memory outside the
    -- regions for compiled code is as it was, and no global symbol has another address than before.
    pub resolve_relocations-Relocated :
        (s s' : Loading) (relocs : List Relocation)
        → Distinct symbol_by_index base_addr local_symbols relocs
        → resolve_relocations fuel symbol_by_index base_addr local_symbols s relocs ≡ ok s'
        → AllRelocated symbol_by_index base_addr local_symbols s'.objects.global_symbols s.memory
            s'.memory relocs
          × ((x : ℕ)
              → OutsideAll symbol_by_index base_addr local_symbols x relocs
              → s'.memory x ≡ s.memory x)
          × ((name : Name) (a : ℕ)
              → get_name s.objects.global_symbols name ≡ some a
              → get_name s'.objects.global_symbols name ≡ some a)
    unfolding resolve_relocations
    resolve_relocations-Relocated s s' [] distinct e =
        subst
          (λ (t : Loading).
            Unit {0}
            × ((x : ℕ) → Unit {0} → t.memory x ≡ s.memory x)
            × ((name : Name) (a : ℕ)
                → get_name s.objects.global_symbols name ≡ some a
                → get_name t.objects.global_symbols name ≡ some a))
          (ok-injective e) (tt, λ x out. refl, λ n a k. k)
    resolve_relocations-Relocated s s' (r ∷ rs) (apart, distinct) e =
        let (t, e1, e2) =
          ok-bind (resolve_relocation fuel symbol_by_index base_addr local_symbols s r) _ s' e in
        let step = resolve_relocation-Step s t r e1 in
        let (all, outside, kept) = resolve_relocations-Relocated t s' rs distinct e2 in
        (
          (
            Relocated-later t.objects.global_symbols s'.objects.global_symbols s.memory t.memory
                s'.memory r kept
                (read_le-cong 8 t.memory s'.memory (base_addr + r.addr)
                  (λ x lt. outside (base_addr + r.addr + x) (Apart-Outside r rs x apart lt)))
                step.relocated,
            AllRelocated-earlier s'.objects.global_symbols s t s'.memory r rs apart step.elsewhere
                all,
          ),
          λ x (out, outs). outside x outs ∙ step.elsewhere x out,
          λ n a known. kept n a (step.kept n a known),
        )
