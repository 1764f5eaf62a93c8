-- ===== src/Tests/Ghost.antt =====
-- The choice of a head and the pool of attestations on concrete inputs.
use mathlib.Core.List.{Memᴰ}
use mathlib.Core.List.Memᴰ.{not-nil}
use shasper.Prelude.{
  ℕ, suc, ◌≡◌, ◌<◌, sym, subst, refl, arith, min, List, [], ◌∷◌, none, some, Bytes, if◌then◌else◌,
  ◌==◌,
}
use shasper.Results.{ok}
use shasper.Ghost.{ArchiveGhost, Backend, ancestor_at, vote_count, commit_overlay, head, has_key}
use shasper.Ghost.Importer.{Store, Executor, ArchiveGhostImporter}
use shasper.Ghost.Ancestors.{IsTree, ancestor_at-climb}
use shasper.Ghost.Heaviest.{Heaviest, weight_of, head-Heaviest}
use shasper.Ghost.Overlay.{vote_count-commit_overlay}

-- Four blocks: 1 and 2 are children of 0, and 3 is a child of 1.
abbrev root : Bytes
root = 0 ∷ []

abbrev left : Bytes
left = 1 ∷ []

abbrev right : Bytes
right = 2 ∷ []

abbrev low : Bytes
low = 3 ∷ []

data Node : Bytes → Type 0 where
  root_node : Node root
  left_node : Node left
  right_node : Node right
  low_node : Node low

abbrev number : Bytes → ℕ
number [] = 0
number (n ∷ rest) = n

abbrev depth : Bytes → ℕ
depth b = if number b == 0 then 0 else (if number b == 3 then 2 else 1)

abbrev height : Bytes → ℕ
height b = if number b == 0 then 2 else (if number b == 1 then 1 else 0)

abbrev parent : Bytes → Bytes
parent b = if number b == 3 then left else root

abbrev children : Bytes → List Bytes
children b = if number b == 0 then left ∷ right ∷ [] else (if number b == 1 then low ∷ [] else [])

abbrev blocks : Backend ℕ
blocks = record {
  depth_at = λ b. ok (depth b);
  parent_at = λ b. ok (if number b == 0 then none else some (parent b));
  children_at = λ b. ok (children b);
}

parent_of : (b : Bytes) → Node b → 0 < depth b → blocks.parent_at b ≡ ok (some (parent b))
parent_of b root_node deep = absurd (omega arith)
parent_of b left_node deep = refl
parent_of b right_node deep = refl
parent_of b low_node deep = refl

parent_above :
    (b : Bytes) → Node b → 0 < depth b → Node (parent b) × (depth b ≡ suc (depth (parent b)))
parent_above b root_node deep = absurd (omega arith)
parent_above b left_node deep = (root_node, refl)
parent_above b right_node deep = (root_node, refl)
parent_above b low_node deep = (left_node, refl)

-- The child `c` of the block `b`.
abbrev Below : Bytes → Bytes → Type 0
Below b c = Node c × (depth c ≡ suc (depth b)) × (height c < height b)

child-Below : (b c : Bytes) → Node b → Memᴰ c (children b) → Below b c
child-Below b c root_node (Memᴰ.head e) =
    subst (λ (x : Bytes). Below root x) (sym e) (left_node, refl, omega arith)
child-Below b c root_node (Memᴰ.tail (Memᴰ.head e)) =
    subst (λ (x : Bytes). Below root x) (sym e) (right_node, refl, omega arith)
child-Below b c root_node (Memᴰ.tail (Memᴰ.tail m)) = absurd (not-nil m)
child-Below b c left_node (Memᴰ.head e) =
    subst (λ (x : Bytes). Below left x) (sym e) (low_node, refl, omega arith)
child-Below b c left_node (Memᴰ.tail m) = absurd (not-nil m)
child-Below b c right_node m = absurd (not-nil m)
child-Below b c low_node m = absurd (not-nil m)

blocks-IsTree : IsTree blocks Node depth height parent children
blocks-IsTree = record {
  depth_known = λ b known. refl;
  parent_known = parent_of;
  parent_above = parent_above;
  children_known = λ b known. refl;
  child_below = child-Below;
}

-- The validators 0 and 1 vote for the left side, one of them in the overlay, and 2 for the right.
abbrev votes : ArchiveGhost
votes = record { votes = (0, right) ∷ (1, low) ∷ (2, right) ∷ []; overlayed_votes = (0, left) ∷ [] }

ancestor_at-climb_example :
    (ancestor_at blocks low 1 ≡ ok left) × Node left × (depth left ≡ min 1 (depth low))
ancestor_at-climb_example =
    ancestor_at-climb blocks Node depth height parent children blocks-IsTree low 1 low_node

head-Heaviest_example :
    (h : Bytes) × (head blocks votes 3 root ≡ ok h)
    × Heaviest children (weight_of depth parent votes) root h
head-Heaviest_example =
    head-Heaviest blocks Node depth height parent children blocks-IsTree votes
      ((right_node, (low_node, (right_node, tt))), (left_node, tt)) 3 root root_node (omega arith)

vote_count-commit_overlay_example :
    vote_count blocks (commit_overlay votes) left 1 ≡ vote_count blocks votes left 1
vote_count-commit_overlay_example =
    vote_count-commit_overlay blocks Node depth height parent children blocks-IsTree votes left 1
      (unfold has_key in ((refl, (refl, (refl, tt))), (refl, tt)))
      ((right_node, (low_node, (right_node, tt))), (left_node, tt))

-- A store that keeps nothing, and an executor with one vote.
abbrev store : Store ℕ (Unit {0}) Bytes ℕ
store = record {
  queries = λ d. blocks;
  genesis = λ d. root;
  height = λ d. 3;
  parent_id = λ b. some (parent b);
  state_at = λ d b. ok 0;
  commit_block = λ d b s. ok d;
  commit_head = λ d b. ok d;
}

abbrev executor : Executor ℕ Bytes ℕ
executor = record {
  execute_block = λ b s. ok s;
  justified_active_validators = λ s. ok (1 ∷ 2 ∷ []);
  justified_block_id = λ s. ok none;
  votes = λ b s. ok ((2, low) ∷ []);
}

abbrev importer : ArchiveGhostImporter (Unit {0})
importer = record { backend = tt; ghost = record { votes = votes.votes; overlayed_votes = [] } }
