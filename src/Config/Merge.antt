-- ===== src/Config/Merge.antt =====
-- The options of nested directories, merged by `merge_dir_conf`.
use mod_gate.Apr.{Apr, AprLaws, or_else, last_value}
use mod_gate.Base.{◌≡◌, refl, sym, ap, ◌∙◌, List, [], ◌∷◌, foldl, Option, none, Bytes}
use mod_gate.Apr.Values.{last_value-append, or_else_assoc}
use mod_gate.Config.{DirConfig, merge_dir_conf}

module _ (apr : Apr) (laws : AprLaws apr) where
  last_value-overlay :
      (a b : apr.Table) (k : Bytes)
      → last_value k (apr.elts (apr.overlay a b))
        ≡ or_else (last_value k (apr.elts b)) (last_value k (apr.elts a))
  last_value-overlay a b k =
      ap (last_value k) (laws.elts-overlay a b) ∙ last_value-append k (apr.elts a) (apr.elts b)

  -- The value that the innermost of nested directories gives to an option, the outermost one first.
  abbrev pub nested_value : Bytes → List (DirConfig apr) → Option Bytes
  nested_value k [] = none
  nested_value k (d ∷ ds) = or_else (nested_value k ds) (last_value k (apr.elts d.options))

  abbrev pub innermost : DirConfig apr → List (DirConfig apr) → DirConfig apr
  innermost c [] = c
  innermost c (d ∷ ds) = innermost d ds

  -- The server's merging of the directories on the way to a file, from the outermost one on.
  abbrev pub merge_all : DirConfig apr → List (DirConfig apr) → DirConfig apr
  merge_all c ds = foldl (merge_dir_conf apr) c ds

  merged_value :
      (c d : DirConfig apr) (k : Bytes)
      → last_value k (apr.elts (merge_dir_conf apr c d).options)
        ≡ or_else (last_value k (apr.elts d.options)) (last_value k (apr.elts c.options))
  unfolding merge_dir_conf
  merged_value c d k =
      laws.last_value-compress_set (apr.overlay c.options d.options) k
      ∙ last_value-overlay c.options d.options k

  nested :
      (ds : List (DirConfig apr)) (c : DirConfig apr) (k : Bytes)
      → last_value k (apr.elts (merge_all c ds).options)
        ≡ or_else (nested_value k ds) (last_value k (apr.elts c.options))
  nested [] c k = refl
  nested (d ∷ ds) c k =
      nested ds (merge_dir_conf apr c d) k
      ∙ ap (or_else (nested_value k ds)) (merged_value c d k)
      ∙ sym (
          or_else_assoc (nested_value k ds) (last_value k (apr.elts d.options))
            (last_value k (apr.elts c.options)))

  get-merge_dir_conf :
      (c d : DirConfig apr) (k : Bytes)
      → apr.get (merge_dir_conf apr c d).options k
        ≡ last_value k (apr.elts (merge_dir_conf apr c d).options)
  unfolding merge_dir_conf
  get-merge_dir_conf c d k =
      laws.get-compress_set (apr.overlay c.options d.options) k
      ∙ sym (laws.last_value-compress_set (apr.overlay c.options d.options) k)

  get-merge_all :
      (ds : List (DirConfig apr)) (c d : DirConfig apr) (k : Bytes)
      → apr.get (merge_all c (d ∷ ds)).options k
        ≡ last_value k (apr.elts (merge_all c (d ∷ ds)).options)
  get-merge_all [] c d k = get-merge_dir_conf c d k
  get-merge_all (e ∷ ds) c d k = get-merge_all ds (merge_dir_conf apr c d) e k

  merged_dir :
      (ds : List (DirConfig apr)) (c : DirConfig apr) → (merge_all c ds).dir ≡ (innermost c ds).dir
  unfolding merge_dir_conf
  merged_dir [] c = refl
  merged_dir (d ∷ []) c = refl
  merged_dir (d ∷ e ∷ ds) c = merged_dir (e ∷ ds) (merge_dir_conf apr c d)

  -- Of nested directories, merged from the outermost one on, each option has the value that the
  -- innermost directory that sets it sets last, and the merged directory is the innermost one,
  -- however many there are.
  pub merge_dir_conf_lem :
      (outer inner : DirConfig apr) (ds : List (DirConfig apr)) (k : Bytes)
      → (apr.get (foldl (merge_dir_conf apr) outer (inner ∷ ds)).options k
          ≡ nested_value k (outer ∷ inner ∷ ds))
        × ((foldl (merge_dir_conf apr) outer (inner ∷ ds)).dir ≡ (innermost inner ds).dir)
  merge_dir_conf_lem outer inner ds k =
      (get-merge_all ds outer inner k ∙ nested (inner ∷ ds) outer k, merged_dir (inner ∷ ds) outer)
