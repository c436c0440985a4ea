-- ===== src/Regalloc/Run/LiveRanges.antt =====
-- What passes 1 to 3 compute, together.
use winds.Base.{
  ℕ, suc, ◌*◌, ◌≤◌, ◌<◌, ◌≡◌, refl, sym, ◌∙◌, ◌↔◌, true, false, some, List, arith, get_elem?,
  length,
}
use winds.Ir.{IrInst, is_jump}
use winds.Regalloc.Types.{position}
use winds.Regalloc.Ranges.{Intervals, init_interval, live_ranges}
use winds.Regalloc.Ranges.Cover.{
  Covers, Mentions, live_ranges-Covers, live_ranges-IsRange, live_ranges-vreg,
  live_ranges-crosses_call,
}
use winds.Regalloc.Extend.{record_labels, find_label_pos, extend_loop}
use winds.Regalloc.Extend.Closed.{ClosedFor, extend_loop-Closed}
use winds.Regalloc.Extend.Terminates.{extend_loop-Ends}
use winds.Regalloc.CrossCalls.{mark_calls}
use winds.Regalloc.CrossCalls.Exact.{
  CallWithin, SameRange, mark_calls-SameRange, mark_calls-crosses_call,
}
use winds.Regalloc.Run.{intervals_of}

-- The intervals `iv` of the instructions `insts`.
pub record IsLive (insts : List IrInst) (n : ℕ) (iv : Intervals) : Type 0 where
  -- Each interval stands under its register.
  pub own : (v : ℕ) → (iv v).vreg ≡ v
  -- The interval of a register that is mentioned runs forwards, inside the function.
  pub range :
      (v : ℕ)
      → 0 < position (iv v).start_inst
      → (position (iv v).start_inst ≤ position (iv v).end_inst)
        × (position (iv v).end_inst ≤ length insts)
  -- It is live at each instruction that defines or uses the register.
  pub covers :
      (k v : ℕ) (inst : IrInst)
      → 0 < v
      → v ≤ n
      → get_elem? insts k ≡ some inst
      → Mentions inst v
      → Covers (iv v) k
  -- If it meets a loop it reaches the loop's backward jump.
  pub closed :
      (m : ℕ) (inst : IrInst)
      → get_elem? insts m ≡ some inst
      → is_jump inst.op ≡ true
      → ClosedFor iv n m (find_label_pos (record_labels insts 0) inst.dest.label)
  -- It is marked exactly when some instruction in it is a call.
  pub calls :
      (v a b : ℕ)
      → 0 < v
      → v ≤ n
      → (iv v).start_inst ≡ some a
      → (iv v).end_inst ≡ some b
      → ((iv v).crosses_call ≡ true) ↔ CallWithin insts a b

module _ (insts : List IrInst) (n : ℕ) where
  first : Intervals
  first = live_ranges init_interval insts n 0

  first-bounded : (w : ℕ) → position (first w).end_inst ≤ length insts
  unfolding first
  first-bounded w = ground (arith, live_ranges-IsRange insts n w)

  module _ (out : Intervals)
      (ended : extend_loop (suc (n * length insts)) (record_labels insts 0) n insts first
        ≡ some out)
      (longer : (w : ℕ)
        → ((out w).vreg ≡ (first w).vreg)
          × ((out w).start_inst ≡ (first w).start_inst)
          × (position (first w).end_inst ≤ position (out w).end_inst)
          × ((out w).crosses_call ≡ (first w).crosses_call))
      (within : (w : ℕ) → position (out w).end_inst ≤ length insts) where
    same : (w : ℕ) → SameRange (out w) (mark_calls insts n out w)
    same w = mark_calls-SameRange insts n out w

    out-range :
        (v : ℕ)
        → 0 < position (out v).start_inst
        → (position (out v).start_inst ≤ position (out v).end_inst)
          × (position (out v).end_inst ≤ length insts)
    unfolding first
    out-range v h = ground (arith, live_ranges-IsRange insts n v, longer v, within v)

    out-off : (v : ℕ) → (out v).crosses_call ≡ false
    unfolding first
    out-off v = (longer v).3 ∙ live_ranges-crosses_call init_interval insts n 0 v refl

    out-Covers :
        (k v : ℕ) (inst : IrInst)
        → 0 < v
        → v ≤ n
        → get_elem? insts k ≡ some inst
        → Mentions inst v
        → Covers (out v) k
    unfolding first
    out-Covers k v inst lo hi e m =
        ground (arith, live_ranges-Covers insts n k v inst lo hi e m, longer v)

    out-ends :
        (v a b : ℕ)
        → (out v).start_inst ≡ some a
        → (out v).end_inst ≡ some b
        → (a ≤ b) × (b < length insts)
    out-ends v a b sa eb = ground (arith, out-range v)

    marked-IsLive : IsLive insts n (mark_calls insts n out)
    unfolding first
    marked-IsLive = record {
      own = λ v. (same v).0 ∙ (longer v).0 ∙ live_ranges-vreg init_interval insts n 0 v refl;
      range = λ v. rw ((same v).1, (same v).2) (out-range v);
      covers = λ k v inst lo hi e m. rw ((same v).1, (same v).2) (out-Covers k v inst lo hi e m);
      closed = λ m inst e b t w q lt lo hi.
          rw ((same w).1, (same w).2)
            (extend_loop-Closed _ _ n insts first out ended m inst e b t w q lt lo hi);
      calls = λ v a b lo hi sa eb.
          let sa' : (out v).start_inst ≡ some a = sym (same v).1 ∙ sa in
          let eb' : (out v).end_inst ≡ some b = sym (same v).2 ∙ eb in
          let r = out-ends v a b sa' eb' in
          mark_calls-crosses_call insts n out v a b lo hi sa' eb' r.0 r.1 (out-off v);
    }

-- Passes 1 to 3 end for every function, and their intervals hold every instruction that mentions
-- the register, run forwards inside the function, reach the jump of every loop that they meet,
-- and are marked as crossing a call exactly when one of their instructions is a call.
pub intervals_of-IsLive :
    (insts : List IrInst) (n : ℕ)
    → (iv : Intervals) × (intervals_of insts n ≡ some iv) × IsLive insts n iv
unfolding intervals_of first
intervals_of-IsLive insts n =
    let (out, e, longer, within) =
      extend_loop-Ends n (length insts) (record_labels insts 0) insts (first insts n) (omega arith)
        (first-bounded insts n) in
    (mark_calls insts n out, rw (e, intervals_of), marked-IsLive insts n out e longer within)
