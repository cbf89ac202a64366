-- ===== src/Lib.antt =====
-- Jujutsu (jj), a version control system: a model of the library crate under lib/src, with proofs.
--
-- The parts and how they interact:
--
-- RepoPath models lib/src/repo_path.rs, the paths of files in a repository. Matchers models
-- lib/src/matchers.rs, which selects paths and tells a walk of the tree where to go. OpStore has
-- the data of lib/src/op_store.rs: what a ref points to and what a view of the repository holds.
-- Refs models lib/src/refs.rs, which merges the targets of a ref and plans a push. View models
-- lib/src/view.rs, whose operations edit a view and call Refs to merge one ref. SimpleOpStore
-- models the translation of views and operations to and from messages in
-- lib/src/simple_op_store.rs. Cancel is the loop that removes matching pairs from a conflict,
-- which lib/src/files.rs and lib/src/tree.rs share. Diff models lib/src/diff.rs: the tokenizers,
-- the ranges that two inputs share, and the hunks of any number of inputs. Files models the merge
-- of file contents in lib/src/files.rs, from the hunks of a diff, which is a parameter there, and
-- the lines of a diff that are shown. Backend has the values of trees of lib/src/backend.rs, and
-- Tree models the differences between trees, the merge of trees and the simplification of
-- conflicts in lib/src/tree.rs; the store of objects is a parameter, a record of what the merge
-- calls. Index models the index of commits in lib/src/index.rs: a stack of files under a mutable
-- segment, the search for an id, the walks over positions and generation numbers, the changes of a
-- mutable index, and the prefixes of ids, for which the package hex is a parameter. A segment is
-- the record of what the trait IndexSegment asks for, and positions are the numbers of commits in
-- the stack. DagWalk models the walks of lib/src/dag_walk.rs over a graph given by a function.
-- Refs and View take is_ancestor of the index as a parameter that answers for all ids; Index
-- defines it, with the panic on an id that the index lacks.
--
-- State is passed explicitly: a method that takes &mut self is a function to the new value. A
-- panic and an absent result are none, or a constructor of their own. Strings are lists of code
-- points, byte strings and ids are lists of numbers below 256, HashSet and BTreeSet are lists read
-- by membership, HashMap and BTreeMap are association lists with one entry for a key, in the order
-- of the keys where the code sees it (Prelude/BTree). Counts and indices of collections in memory
-- are unbounded; the positions and generation numbers of the index, the bounds of its searches and
-- the numbers of lines are kept modulo 2^32, and the offsets of a diff modulo 2^64. Most code that
-- may panic or run out of fuel gives an Outcome (Prelude/Outcome), in which both are values; the
-- merge of trees has a type of its own for that (Tree).
--
-- A loop is structural recursion over what it iterates, or takes fuel: the loop of Dirs::add_dir
-- has one round more than the path has components, and that of merge_ref_targets one round for
-- each add, since a round removes one; without adds there is no pair to remove, so that where its
-- fuel ends the loop returns what it has, as the source does. merge_trees recurses into subtrees
-- that the store returns, and its fuel bounds their depth. The walks of the index and of DagWalk
-- have one round for each node and edge that they push, and the fuel that suffices is counted so.
-- A result of find_lcs is walked back in as many rounds as the input is long, and unchanged_ranges
-- recurs at most once for each range of the left side.
--
-- Not modelled: input and output, the file formats and backends, the statistics of the index,
-- stacked tables, conflict markers, ignore files, the rewriting of commits, repositories and
-- transactions, the Git bridge, the working copy, the revset language, the command line and its
-- output. The order in which a hash map or set is iterated is left open in the source; where it is
-- seen, the model takes one.
pub mod Prelude
pub mod RepoPath
pub mod Matchers
pub mod OpStore
pub mod Refs
pub mod View
pub mod SimpleOpStore
pub mod Cancel
pub mod Files
pub mod Backend
pub mod Tree
pub mod Index
pub mod DagWalk
pub mod Diff
