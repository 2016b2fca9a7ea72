-- ===== src/Step/Count.antt =====
-- cpu.h: `print_count`, which the call of `exit` makes before it ends the program: the counts, most
-- frequent instruction first. The standard library's `sort` is the argument `sort`.
pub mod Order
pub mod Sort
pub mod Total
use Prim.Native.String.{String, [], ◌∷◌}
use Prim.Native.Char.{code}
use riscv_isa_simulator.Base.{ℕ, Bool, true, false, not, ltb, ◌==◌, if◌then◌else◌, List}
use riscv_isa_simulator.Cpu.{Cpu}

-- `a > b` on strings
unfoldable pub greater : String → String → Bool
greater [] t = false
greater (c ∷ s) [] = true
greater (c ∷ s) (d ∷ t) =
    let later = greater s t in if code c == code d then later else ltb (code d) (code c)

-- bool cmp(std::pair<string,int> const & a, std::pair<string,int> const & b)
unfoldable pub cmp : String × ℕ → String × ℕ → Bool
unfolding greater
cmp a b = if not (a.1 == b.1) then ltb b.1 a.1 else greater a.0 b.0

-- void print_count(): the names and numbers that it prints, in their order.
unfoldable pub print_count :
    {W : Type 0}
    → ((String × ℕ → String × ℕ → Bool) → List (String × ℕ) → List (String × ℕ))
    → Cpu W
    → List (String × ℕ)
unfolding cmp
print_count sort p = sort cmp p.insn_count
