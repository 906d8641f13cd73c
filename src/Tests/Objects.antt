-- ===== src/Tests/Objects.antt =====
-- An object of two segments that needs the dynamic linker, with a symbol, an initializer and four
-- relocations.
use xob.Base.{◌==◌, if◌then◌else◌, ℕ, Option, none, some, List, [], ◌∷◌}
use xob.Outcome.{Outcome, ok, err, panic}
use xob.Memory.{Name}
use xob.Finalize.{Encoded}
use xob.Wrapped
use xob.Loader.Symbols.{Loading}
use xob.Loader.Object.{Elf, load_and_link}
use xob.Tests.Setup.{vendor, callbacks, platform}
use xob.Tests.Loading.{kernel, object}
use xob.Tests.Symbols.{host, loading, symbols, relocations, main_name}

abbrev linker_name : Name
linker_name =
    b'l' ∷ b'd' ∷ b'-' ∷ b'l' ∷ b'i' ∷ b'n' ∷ b'u' ∷ b'x' ∷ b'-' ∷ b'a' ∷ b'a' ∷ b'r' ∷ b'c' ∷ b'h'
    ∷ b'6' ∷ b'4' ∷ b'.' ∷ b's' ∷ b'o' ∷ b'.' ∷ b'1' ∷ []

abbrev program : Elf
program = record {
  dynamic_table = record { tag = 1; val = 5 } ∷ record { tag = 12; val = 100 } ∷ [];
  string = λ offset. some linker_name;
  segments = object;
  dynamic_symbols =
      record { name = main_name; st_shndx = 1; st_bind = 1; st_other = 0; st_value = 200 } ∷ [];
  symbol_by_index = symbols;
  dynamic_relocations = relocations;
  entry = 64;
}

abbrev result_of : Outcome (Loading × ℕ × List ℕ) → Loading × ℕ × List ℕ
result_of (ok r) = r
result_of (err e) = (loading, 0, [])
result_of panic = (loading, 0, [])

abbrev loads : Outcome (Loading × ℕ × List ℕ)
loads =
    load_and_link ⦃h = host⦄ ⦃v = vendor⦄ ⦃cb = callbacks⦄ ⦃p = platform⦄ ⦃os = kernel⦄ 0 loading
      program 3

abbrev code_of : Option Encoded → List ℕ
code_of none = []
code_of (some e) = e.code_buffer

-- An initializer that puts its address into memory.
abbrev initialize : ℕ → Loading → Outcome Loading
initialize ptr s = ok (record s { memory = λ x. if x == 8 then ptr else s.memory x })

abbrev initialized : Loading
initialized = record (result_of loads).0 {
  memory = λ x. if x == 8 then 4194404 else (result_of loads).0.memory x;
}
