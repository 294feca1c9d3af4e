-- ===== src/Graphql/Guards.antt =====
-- internal/adapters/graphql/guards.go: the limits on the depth of a query and on its pages.
pub mod Fuel
pub mod Depth
pub mod Longest
pub mod First
pub mod Accepted
use Prim.Native.String.{String}
use comments_service.Prelude.{
  ℕ, zero, suc, ◌+◌, ◌≡◌, Bool, true, false, not, ◌||◌, Option, none, some, List, [], ◌∷◌, ltb,
  length, if◌then◌else◌,
}
use comments_service.Prelude.Int.{ℤ, pos, leb_ℤ}
use comments_service.Go.Text.{Text, ascii, text_eq}

-- What an argument evaluates to, of the types that intValue tells apart. A float64 stands for the int
-- that it is converted to.
pub data GoValue : Type 0 where
  int int_64 float_64 : ℤ → GoValue
  string : Text → GoValue
  other : GoValue

-- The argument `first` of a field as gqlparser gives it: missing, or with a value that evaluates to
-- nothing or to a Go value under the operation's variables.
pub data FirstArgument : Type 0 where
  missing : FirstArgument
  invalid : FirstArgument
  evaluated : GoValue → FirstArgument

-- ast.Selection and ast.SelectionSet, with what the guards read of them.
mutual
  pub data Selection : Type 0 where
    field : FirstArgument → Selections → Selection
    inline_fragment : Selections → Selection
    fragment_spread : Text → Selection

  pub data Selections : Type 0 where
    nil : Selections
    cons : Selection → Selections → Selections

-- visited[name]
unfoldable pub seen : List Text → Text → Bool
seen [] name = false
seen (n ∷ ns) name = text_eq n name || seen ns name

-- ast.FragmentDefinitionList: ForName finds definitions only under the names of the list.
pub record Fragments : Type 0 where
  pub names : List Text
  pub for_name : Text → Option Selections
  pub for_name-known : (n : Text) (s : Selections) → for_name n ≡ some s → seen names n ≡ true

pub record GqlError : Type 0 where
  pub message : Text
  pub code : Text
  pub argument : Option Text

-- The greater one, as `if childDepth > maxDepth` leaves it.
abbrev pub deeper : ℕ → ℕ → ℕ
deeper m c = if ltb m c then c else m

abbrev pub raise : ℕ → Option ℕ → Option ℕ
raise m none = none
raise m (some c) = some (deeper m c)

-- Goes on with a result, if fuel was left.
abbrev pub then_with : Option ℕ → (ℕ → Option ℕ) → Option ℕ
then_with none f = none
then_with (some m) f = f m

-- if fragment == nil { … }
abbrev pub unless_nil : {A : Type 0} → Option Selections → A → (Selections → A) → A
unless_nil none absent f = absent
unless_nil (some s) absent f = f s

-- A call of selectionDepth: the depth, the names that are visited, and the selections.
abbrev pub DepthCall : Type 0
DepthCall = ℕ → List Text → Selections → Option ℕ

module _ (fragments : Fragments) where
  -- The body of selectionDepth; `enter` is its call for a fragment, and `m` is maxDepth. A name that is
  -- put into the visited ones is deleted after that call, so they are the same after it as before.
  unfoldable mutual
    pub depth_loop : DepthCall → ℕ → List Text → ℕ → Selections → Option ℕ
    depth_loop enter depth visited m nil = some m
    depth_loop enter depth visited m (cons x rest) =
        then_with (depth_step enter depth visited m x)
          (λ m'. depth_loop enter depth visited m' rest)

    pub depth_step : DepthCall → ℕ → List Text → ℕ → Selection → Option ℕ
    depth_step enter depth visited m (field first nil) = some (deeper m depth)
    depth_step enter depth visited m (field first (cons x rest)) =
        raise m (depth_loop enter (depth + 1) visited (depth + 1) (cons x rest))
    depth_step enter depth visited m (inline_fragment s) =
        raise m (depth_loop enter (depth + 1) visited (depth + 1) s)
    depth_step enter depth visited m (fragment_spread name) =
        if seen visited name
        then some m
        else unless_nil (fragments.for_name name) (some m)
            (λ s. raise m (enter (depth + 1) (name ∷ visited) s))

  -- selectionDepth, with fuel for the fragments that stand in one another; `none` if it runs out.
  unfoldable pub selection_depth : ℕ → DepthCall
  unfolding depth_loop
  selection_depth zero depth visited s = depth_loop (λ d v t. none) depth visited depth s
  selection_depth (suc fuel) depth visited s =
      depth_loop (selection_depth fuel) depth visited depth s

-- What a check answers; `out_of_fuel` is the model's own.
pub data Verdict : Type 0 where
  accepted : Verdict
  rejected : GqlError → Verdict
  out_of_fuel : Verdict

-- if err := …; err != nil { return err }
abbrev pub and_then : Verdict → Verdict → Verdict
and_then accepted next = next
and_then (rejected e) next = rejected e
and_then out_of_fuel next = out_of_fuel

abbrev pub depth_limit_error : GqlError
depth_limit_error = record {
  message = ascii "query depth exceeds the configured limit";
  code = ascii "GRAPHQL_DEPTH_LIMIT";
  argument = none;
}

abbrev pub depth_verdict : ℤ → Option ℕ → Verdict
depth_verdict max_depth none = out_of_fuel
depth_verdict max_depth (some depth) =
    if leb_ℤ (pos depth) max_depth then accepted else rejected depth_limit_error

-- One entry for each fragment's name is fuel enough.
unfoldable pub validate_depth_limit : Fragments → Selections → ℤ → Verdict
unfolding selection_depth
validate_depth_limit fragments s max_depth =
    if leb_ℤ max_depth (pos 0)
    then accepted
    else depth_verdict max_depth (selection_depth fragments (length fragments.names) 1 [] s)

abbrev pub invalid_first_argument_error : String → String → GqlError
invalid_first_argument_error message code = record {
  message = ascii message;
  code = ascii code;
  argument = some (ascii "first");
}

-- What the guard reads of the operation context.
pub record Operation : Type 0 where
  pub selections : Selections
  pub fragments : Fragments

module _ (atoi : Text → Option ℤ) where
  unfoldable pub int_value : GoValue → Option ℤ
  int_value (int n) = some n
  int_value (int_64 n) = some n
  int_value (float_64 n) = some n
  int_value (string s) = atoi s
  int_value other = none

  -- The tests on a value that intValue has read or not.
  unfoldable pub check_int : ℤ → Option ℤ → Verdict
  check_int max_page_size none =
      rejected (
        invalid_first_argument_error "first must be greater than zero" "GRAPHQL_PAGINATION_INVALID")
  check_int max_page_size (some first) =
      if leb_ℤ first (pos 0)
      then rejected (
          invalid_first_argument_error "first must be greater than zero"
            "GRAPHQL_PAGINATION_INVALID")
      else if leb_ℤ first max_page_size
      then accepted
      else rejected (
          invalid_first_argument_error "first exceeds the configured maximum"
            "GRAPHQL_PAGINATION_LIMIT")

  unfoldable pub validate_field_first_argument : ℤ → FirstArgument → Verdict
  unfolding int_value check_int
  validate_field_first_argument max_page_size missing = accepted
  validate_field_first_argument max_page_size invalid =
      rejected
        (invalid_first_argument_error "invalid pagination argument" "GRAPHQL_PAGINATION_INVALID")
  validate_field_first_argument max_page_size (evaluated v) = check_int max_page_size (int_value v)

  module _ (fragments : Fragments) (max_page_size : ℤ) where
    -- validateSelectionSetFirstArguments and validateSelectionFirstArgument; `enter` is the call for a
    -- fragment, after which the visited names are as before.
    unfoldable mutual
      pub first_loop : (List Text → Selections → Verdict) → List Text → Selections → Verdict
      first_loop enter visited nil = accepted
      first_loop enter visited (cons x rest) =
          and_then (first_step enter visited x) (first_loop enter visited rest)

      pub first_step : (List Text → Selections → Verdict) → List Text → Selection → Verdict
      first_step enter visited (field first s) =
          and_then (validate_field_first_argument max_page_size first) (first_loop enter visited s)
      first_step enter visited (inline_fragment s) = first_loop enter visited s
      first_step enter visited (fragment_spread name) =
          if seen visited name
          then accepted
          else unless_nil (fragments.for_name name) accepted (λ s. enter (name ∷ visited) s)

    -- With fuel for the fragments that stand in one another.
    unfoldable pub first_arguments : ℕ → List Text → Selections → Verdict
    unfolding first_loop
    first_arguments zero visited s = first_loop (λ v t. out_of_fuel) visited s
    first_arguments (suc fuel) visited s = first_loop (first_arguments fuel) visited s

  unfoldable pub validate_first_arguments : Fragments → Selections → ℤ → Verdict
  unfolding first_arguments
  validate_first_arguments fragments s max_page_size =
      if leb_ℤ max_page_size (pos 0)
      then accepted
      else first_arguments fragments max_page_size (length fragments.names) [] s

  -- guardMiddleware; `accepted` is the call of the next handler.
  unfoldable pub guard : ℤ → ℤ → Option Operation → Verdict
  unfolding validate_depth_limit validate_first_arguments
  guard max_depth max_page_size none = accepted
  guard max_depth max_page_size (some op) =
      and_then (validate_depth_limit op.fragments op.selections max_depth)
        (validate_first_arguments op.fragments op.selections max_page_size)
