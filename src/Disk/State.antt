-- ===== src/Disk/State.antt =====
-- A file system as a value: what stands at each path, a clock for modification times, and the
-- schedule of failures.
use isoboot.Prelude.{
  ℕ, zero, suc, ◌+◌, String, Option, some, Bool, true, false, List, [], ◌∷◌, ◌==◌, texts_eq,
  if◌then◌else◌, Dict, lookup, insert, keep, not,
}
use isoboot.Paths.{FilePath, dir, follow_from}

pub record File : Type 0 where
  pub content : List ℕ
  pub modified : ℕ
  pub mode : ℕ

pub data Node : Type 0 where
  file : File → Node
  link : FilePath → Node
  directory : ℕ → Node

pub record Disk : Type 0 where
  pub nodes : Dict FilePath Node
  pub clock : ℕ
  pub faults : List (Option ℕ)

-- Links are followed forty times at most.
abbrev pub max_links : ℕ
max_links = 40

unfoldable pub real_path : ℕ → Dict FilePath Node → FilePath → FilePath
real_path zero nodes path = path
real_path (suc k) nodes path = elim (lookup path nodes) [
  | some (link target) ↦ real_path k nodes (follow_from (dir path) target)
  | _ ↦ path
]

-- What a path names after links; a link that is left over counts as an error.
unfoldable pub target_of : Disk → FilePath → FilePath
unfolding real_path
target_of d path = real_path max_links d.nodes path

unfoldable pub is_directory : Dict FilePath Node → FilePath → Bool
unfolding real_path
is_directory nodes [] = true
is_directory nodes (name ∷ up) = elim (lookup (real_path max_links nodes (name ∷ up)) nodes) [
  | some (directory m) ↦ true
  | _ ↦ false
]

-- The state after a write of one node.
abbrev pub put_node : FilePath → Node → Disk → Disk
put_node path node d = record d { nodes = insert path node d.nodes; clock = d.clock + 1 }

abbrev pub drop_nodes : (FilePath → Bool) → Disk → Disk
drop_nodes test d = record d { nodes = keep (λ p. not (test p)) d.nodes; clock = d.clock + 1 }

abbrev pub take : ℕ → List ℕ → List ℕ
take zero bytes = []
take (suc n) [] = []
take (suc n) (b ∷ bytes) = b ∷ take n bytes

-- A path lies in the tree of another, or is that one.
unfoldable pub is_under : FilePath → FilePath → Bool
is_under root [] = root == []
is_under root (name ∷ up) =
    let above = is_under root up in if root == (name ∷ up) then true else above

unfoldable pub children : FilePath → Dict FilePath Node → List String
children root [] = []
children root (([], _) ∷ nodes) = children root nodes
children root ((name ∷ up, _) ∷ nodes) =
    let rest = children root nodes in if up == root then name ∷ rest else rest
