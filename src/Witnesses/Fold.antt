-- ===== src/Witnesses/Fold.antt =====
-- The theorems about the typed fold at concrete inputs.
use peglib.Fold.Invoke.{fold_and_invoke-Shape}
use peglib.Prelude.{◌∷◌, none, get_elem?, [], arith, ℕ, ◌≡◌, refl, some}
use peglib.Context.{ParseTreeNode, Context}
use peglib.ResultType.{
  void, other, vector, TypeList, stop, ◌▸◌, result_of, results_of, filter_void, collapse, flat_args,
}
use peglib.Fold.{folded, Value}
use peglib.Fold.Shape.{Shape}
use peglib.Fold.Shape.Run.{fold-Shape}
use peglib.Samples.{e_name, run_expr}
use peglib.Fold.Types.{HaveTypes, HasType}
use peglib.Fold.Actions.{fold_and_invoke, arguments, fold}
use peglib.Fold.Arguments.{flat_args-collapse}
use peglib.Samples.Fold.{take_element, number_nodes, no_folds, marked, marks_end}

abbrev mixed : TypeList
mixed = void ▸ (other 0 ▸ (vector (other 1) ▸ (void ▸ stop)))

flat_args-collapse_example : flat_args (collapse (filter_void mixed)) ≡ filter_void mixed
unfolding filter_void
flat_args-collapse_example = flat_args-collapse mixed (λ h. h)

-- The tree of the rule's body, as the parse has built it.
marked-Shape :
    Shape number_nodes no_folds 0 marks_end.m_node_arena marks_end.m_input marked (some 0)
unfolding run_expr result_of results_of
marked-Shape = (_, refl, (_, refl, (_, refl, omega arith), tt))

fold-Shape_example :
    (v : Value ℕ) × (d : Context) × (fold number_nodes no_folds 0 marked (some 0) marks_end
      ≡ folded v d)
    × HasType number_nodes v (other 0)
    × (d.m_node_arena ≡ marks_end.m_node_arena)
unfolding result_of results_of filter_void collapse
fold-Shape_example =
    fold-Shape number_nodes no_folds 0 marked (other 0) (some 0) marks_end refl refl marked-Shape

-- The rule's own node, around the body's.
abbrev own_node : ParseTreeNode
own_node = record {
  name = e_name;
  start_offset = 0;
  end_offset = 2;
  children = some 0 ∷ [];
  producer = some 0;
  alt_winner = none;
}

own_stands : get_elem? marks_end.m_node_arena 4 ≡ some own_node
unfolding run_expr
own_stands = refl

fold_and_invoke-Shape_example :
    (v : Value ℕ) × (d : Context) × (fold number_nodes no_folds 0 marked (some 0) marks_end
      ≡ folded v d)
    × (fold_and_invoke number_nodes no_folds 0 take_element marked (some 4) marks_end
        ≡ take_element (record { start = 0; end = 2 }) (arguments (some (other 0)) v) d)
    × HaveTypes number_nodes (arguments (some (other 0)) v) (flat_args (other 0))
    × (d.m_node_arena ≡ marks_end.m_node_arena)
unfolding result_of results_of filter_void collapse
fold_and_invoke-Shape_example =
    fold_and_invoke-Shape number_nodes no_folds 0 take_element marked (other 0) 4 0 own_node
      marks_end refl refl own_stands refl marked-Shape
