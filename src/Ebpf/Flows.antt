-- ===== src/Ebpf/Flows.antt =====
-- A flow map that satisfies the laws of `FlowMap`: an association list of at most 1024 entries, the
-- size that FLOW_MAP of lueur-ebpf-programs/src/main.rs is declared with.
use lueur.Prelude.{
  ℕ, ◌≡◌, true, Option, none, some, List, [], ◌∷◌, arith, ltb, length, if◌then◌else◌,
}
use lueur.Ebpf.{FlowId, FlowMap, same_flow}

abbrev pub Entries : Type 0
Entries = List (FlowId × ℕ)

unfoldable pub find : FlowId → Entries → Option ℕ
find g [] = none
find g ((f, port) ∷ m) = if same_flow f g then some port else find g m

pub remove : FlowId → Entries → Entries
remove f [] = []
remove f ((e, port) ∷ m) = let rest = remove f m in if same_flow f e then rest else (e, port) ∷ rest

unfoldable pub insert : FlowId → ℕ → Entries → Option Entries
unfolding remove
insert f port m =
    let left = remove f m in if ltb (length left) 1024 then some ((f, port) ∷ left) else none

same_flow_trans : (f g h : FlowId) → same_flow f g ≡ true → same_flow f h ≡ same_flow g h
same_flow_trans f g h e = ground arith

pub find-remove :
    (f g : FlowId) (m : Entries) → find g (remove f m) ≡ (if same_flow f g then none else find g m)
unfolding find remove
find-remove f g [] = ground arith
find-remove f g ((e, port) ∷ m) = ground (arith, find-remove f g m, same_flow_trans f e g)

pub find-insert :
    (f g : FlowId) (port : ℕ) (m m' : Entries)
    → insert f port m ≡ some m'
    → find g m' ≡ (if same_flow f g then some port else find g m)
unfolding insert find
find-insert f g port m m' h = ground (arith, find-remove f g m)

abbrev pub flow_list : FlowMap
flow_list = record {
  M = Entries;
  lookup = find;
  update = insert;
  delete = remove;
  lookup-update = find-insert;
  lookup-delete = find-remove;
}
