-- ===== src/Opt/Unreachable/Places.antt =====
-- Places in a list of basic blocks, and the ends of blocks.
use winds.Base.{
  ℕ, suc, ◌+◌, String, ◌≡◌, refl, ◌∙◌, ap, inl, inr, Bool, true, false, Option, List, [], ◌∷◌, ◌++◌,
  arith, length, get_elem?, Member,
}
use winds.Ir.{IrOp, IrInst, is_jump}
use winds.Opt.Dead.{ends_flow}
use winds.Opt.Flow.{same_label, label_of, takes}
use winds.Opt.Unreachable.{BasicBlockInfo, falls_through}

pub takes-is_jump : (op : IrOp) (z : Bool) → takes op z ≡ true → is_jump op ≡ true
takes-is_jump op z h = ground (arith, h)

pub label_of-ends_flow :
    (inst : IrInst) (l : Option String)
    → same_label (label_of inst) l ≡ true
    → ends_flow inst.op ≡ false
label_of-ends_flow inst l h = ground (arith, h)

pub falls_through-snoc :
    (pre : List IrInst) (x : IrInst)
    → ends_flow x.op ≡ false
    → falls_through (pre ++ (x ∷ [])) ≡ true
unfolding falls_through
falls_through-snoc [] x h = ground (arith, h)
falls_through-snoc (p ∷ []) x h = falls_through-snoc [] x h
falls_through-snoc (p ∷ q ∷ pre) x h = falls_through-snoc (q ∷ pre) x h

pub member-middle : (pre : List IrInst) (x : IrInst) (xs : List IrInst) → Member x (pre ++ (x ∷ xs))
member-middle [] x xs = inl refl
member-middle (p ∷ pre) x xs = inr (member-middle pre x xs)

-- The blocks from number `b` on.
pub data From (blocks : List BasicBlockInfo) : ℕ → List BasicBlockInfo → Type 0 where
  start : From blocks 0 blocks
  next :
      {b : ℕ} {block : BasicBlockInfo} {rest : List BasicBlockInfo}
      → From blocks b (block ∷ rest)
      → From blocks (suc b) rest

pub zero_add : (k : ℕ) → 0 + k ≡ k
zero_add k = omega arith

suc_add : (b k : ℕ) → suc b + k ≡ b + suc k
suc_add b k = omega arith

pub add_zero : (b : ℕ) → b + 0 ≡ b
add_zero b = omega arith

pub From-get :
    {blocks : List BasicBlockInfo} {b : ℕ} {rest : List BasicBlockInfo} (k : ℕ)
    → From blocks b rest
    → get_elem? blocks (b + k) ≡ get_elem? rest k
From-get {blocks = blocks} k start = ap (get_elem? blocks) (zero_add k)
From-get {blocks = blocks} k (next {b} f) = ap (get_elem? blocks) (suc_add b k) ∙ From-get (suc k) f

pub From-length :
    {blocks : List BasicBlockInfo} {b : ℕ} {rest : List BasicBlockInfo}
    → From blocks b rest
    → length blocks ≡ b + length rest
From-length start = omega arith
From-length (next f) = From-length f ∙ omega arith
