-- ===== src/Opt/CopyProp/Chains.antt =====
-- The chains of copies that find_copy_root follows.
use winds.Base.{
  subst, ℕ, zero, suc, ◌+◌, ◌≤◌, ◌<◌, ◌≡◌, sym, ◌≢◌, true, false, inl, inr, Option, none, some,
  List, [], ◌∷◌, arith, Bool-cases, if◌then◌else◌, ltb, ◌==◌, length, not, ◌&&◌,
}
use winds.Ir.{IrInst, ir_mov, is_op}
use winds.Opt.CopyProp.{
  CopyMap, set_copy, has_next, find_copy_root, record_copy, record_move, build_copies, copies_of,
  is_self_move,
}

-- A measure, at most `bound`, that falls along every link of the map.
abbrev pub Ranked : ℕ → CopyMap → Type 0
Ranked bound copy_map =
    (rank : ℕ → ℕ) × ((v : ℕ) → rank v ≤ bound)
    × ((v : ℕ) → has_next copy_map v ≡ true → rank (copy_map v) < rank v)

-- The loop ends at a root once the fuel is the measure of its start.
find_copy_root-at_rank :
    (fuel : ℕ) (copy_map : CopyMap) (rank : ℕ → ℕ) (v : ℕ)
    → ((v : ℕ) → has_next copy_map v ≡ true → rank (copy_map v) < rank v)
    → rank v ≤ fuel
    → has_next copy_map (find_copy_root fuel copy_map v) ≡ false
unfolding find_copy_root
find_copy_root-at_rank zero copy_map rank v falls le = elim (Bool-cases (has_next copy_map v)) [
  | inl h ↦ absurd (omega (arith, falls v h))
  | inr h ↦ h
]
find_copy_root-at_rank (suc fuel) copy_map rank v falls le =
    elim (Bool-cases (has_next copy_map v)) [
      | inl h ↦
          rw h (
            find_copy_root-at_rank fuel copy_map rank (copy_map v) falls (omega (arith, falls v h)))
      | inr h ↦ rw h h
    ]

pub find_copy_root-root :
    (bound fuel : ℕ) (copy_map : CopyMap) (v : ℕ)
    → Ranked bound copy_map
    → bound ≤ fuel
    → has_next copy_map (find_copy_root fuel copy_map v) ≡ false
find_copy_root-root bound fuel copy_map v (rank, le, falls) enough =
    find_copy_root-at_rank fuel copy_map rank v falls (omega (arith, le v))

identity-Ranked : Ranked 0 (λ v. v)
identity-Ranked = ((λ _. 0), (λ _. omega arith), λ v h. ground arith)

Ranked-later :
    (bound : ℕ) (copy_map : CopyMap) → Ranked bound copy_map → Ranked (suc bound) copy_map
Ranked-later bound copy_map (rank, le, falls) = (rank, (λ v. omega (arith, le v)), falls)

-- A link to a root makes every chain longer by at most one.
set_copy-Ranked :
    (bound : ℕ) (copy_map : CopyMap) (d root : ℕ)
    → Ranked bound copy_map
    → 0 < root
    → root ≢ d
    → has_next copy_map root ≡ false
    → Ranked (suc bound) (set_copy copy_map d root)
set_copy-Ranked bound copy_map d root (rank, le, falls) lo ne end =
    (higher, (λ v. ground (arith, le v)), fall)
  where
    higher : ℕ → ℕ
    higher v = if v == root then 0 else suc (rank v)

    at_root : (v : ℕ) → (v == root) ≡ true → has_next (set_copy copy_map d root) v ≡ false
    at_root v q =
        let e : v ≡ root = ground arith in
        subst (λ x. has_next (set_copy copy_map d root) x ≡ false) (sym e) (ground arith)

    fall :
        (v : ℕ)
        → has_next (set_copy copy_map d root) v ≡ true
        → higher (set_copy copy_map d root v) < higher v
    fall v h = elim (Bool-cases (v == root)) [
      | inl q ↦ cc (at_root v q, h)
      | inr q ↦ ground (arith, falls v)
    ]

record_copy-Ranked :
    (bound fuel : ℕ) (copy_map : CopyMap) (d s : Option ℕ)
    → Ranked bound copy_map
    → bound ≤ fuel
    → Ranked (suc bound) (record_copy fuel copy_map d s)
unfolding record_copy
record_copy-Ranked bound fuel copy_map none s r le = Ranked-later bound copy_map r
record_copy-Ranked bound fuel copy_map (some d) none r le = Ranked-later bound copy_map r
record_copy-Ranked bound fuel copy_map (some d) (some s) r le =
    let root = find_copy_root fuel copy_map s in
    elim (Bool-cases (ltb 0 root && not (root == d))) [
      | inl h ↦ rw h (
          set_copy-Ranked bound copy_map d root r (ground arith) (ground arith)
            (find_copy_root-root bound fuel copy_map s r le))
      | inr h ↦ rw h (Ranked-later bound copy_map r)
    ]

record_move-Ranked :
    (bound fuel max_vreg : ℕ) (copy_map : CopyMap) (inst : IrInst)
    → Ranked bound copy_map
    → bound ≤ fuel
    → Ranked (suc bound) (record_move fuel max_vreg copy_map inst)
unfolding record_move
record_move-Ranked bound fuel max_vreg copy_map inst r le =
    elim (Bool-cases (is_op inst.op ir_mov && not (is_self_move max_vreg inst))) [
      | inl h ↦ rw h (record_copy-Ranked bound fuel copy_map _ _ r le)
      | inr h ↦ rw h (Ranked-later bound copy_map r)
    ]

build_copies-Ranked :
    (bound fuel max_vreg : ℕ) (copy_map : CopyMap) (insts : List IrInst)
    → Ranked bound copy_map
    → bound + length insts ≤ fuel
    → Ranked (bound + length insts) (build_copies fuel max_vreg copy_map insts)
unfolding build_copies
build_copies-Ranked bound fuel max_vreg copy_map [] r le =
    subst (λ b. Ranked b copy_map) (omega arith) r
build_copies-Ranked bound fuel max_vreg copy_map (inst ∷ rest) r le =
    subst
      (λ b. Ranked b (build_copies fuel max_vreg (record_move fuel max_vreg copy_map inst) rest))
      (omega arith)
      (build_copies-Ranked (suc bound) fuel max_vreg (record_move fuel max_vreg copy_map inst) rest
        (record_move-Ranked bound fuel max_vreg copy_map inst r (omega arith)) (omega arith))

-- In the copy map that pass 1 builds, the search from any register ends at a root within one
-- round for each instruction: the map has no cycle.
pub copies_of-root :
    (max_vreg : ℕ) (insts : List IrInst) (v : ℕ)
    → has_next
        (copies_of max_vreg insts)
        (find_copy_root (length insts) (copies_of max_vreg insts) v)
      ≡ false
unfolding copies_of
copies_of-root max_vreg insts v =
    find_copy_root-root (0 + length insts) (length insts) _ v
      (build_copies-Ranked 0 (length insts) max_vreg (λ v. v) insts identity-Ranked (omega arith))
      (omega arith)
