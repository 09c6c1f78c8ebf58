-- ===== src/Tests/Sizes.antt =====
-- DirSize over a concrete directory.
use raft_example.Prelude.{◌%◌, ◌^◌, ◌≡◌, refl, [], ◌∷◌, bytes_of, ok, arith}
use raft_example.Prelude.Map.{Map, lookup}
use raft_example.Fsm.Disk.{Node, folder, file}
use raft_example.Fsm.Disk.Paths.{Unique}
use raft_example.Fsm.Sizes.{dir_size}
use raft_example.Fsm.Sizes.Tree.{IsTree, files_within}
use raft_example.Fsm.Sizes.Walk.{walk, dir_size-files_within}

-- A directory with one file, and a file beside it.
abbrev nodes : Map Node
nodes =
    (bytes_of "d", folder)
    ∷ (bytes_of "d/f", file (bytes_of "12345"))
    ∷ (bytes_of "e", file (bytes_of "1"))
    ∷ []

nodes-Unique : Unique nodes
unfolding Unique lookup
nodes-Unique = (refl, (refl, (refl, tt)))

nodes-IsTree : IsTree (bytes_of "d") nodes
unfolding lookup
nodes-IsTree [] r n inside found = absurd cc
nodes-IsTree (x ∷ []) r n inside found = ground arith
nodes-IsTree (x ∷ y ∷ []) r n inside found = absurd (ground arith)
nodes-IsTree (x ∷ y ∷ z ∷ []) r n inside found = absurd (ground arith)
nodes-IsTree (x ∷ y ∷ z ∷ w ∷ a) r n inside found = absurd (ground arith)

dir_size-files_within_example :
    dir_size (walk 2 nodes (bytes_of "d") folder) ≡ ok (files_within (bytes_of "d") nodes % 2 ^ 64)
unfolding lookup
dir_size-files_within_example =
    dir_size-files_within (bytes_of "d") nodes nodes-Unique nodes-IsTree 2 folder refl
      (λ h. omega arith, (λ h. omega arith, (λ h. cc, tt)))
