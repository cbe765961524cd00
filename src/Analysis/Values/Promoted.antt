-- ===== src/Analysis/Values/Promoted.antt =====
-- src/semantics.cxx: value types are promoted, except those of function designators.
use waspas.Base.{
  ℕ, suc, ◌≡◌, refl, subst, Bool, true, false, List, Option, none, some, Bool-cases, inl, inr,
}
use mathlib.Core.Option
use mathlib.Core.Bool.{true≢false}
use waspas.Utilities.{Text}
use waspas.Semantics.Types.{
  PascalType, type_boolean, type_char, type_integer, type_enumerated, type_subrange,
  type_subrange_dynamic, type_set, full_range,
}
use waspas.Semantics.Types.Relations.{is_assignment_compatible_with}
use waspas.Semantics.Constants.{constant_type}
use waspas.Semantics.Signatures.{Signature, bound_types, parameters}
use waspas.Semantics.Scopes.{Scope}
use waspas.Semantics.Blocks.{Block, find_name}
use waspas.Semantics.Expressions.{
  SemExpression, SemAccess, BinaryOperator, operator_add, operator_multiply, operator_subtract,
  expression_bound, expression_constant, expression_function_designator, expression_nil,
  expression_binary, expression_negate, expression_not, expression_set_constructor,
  expression_access, expression_builtin, promoted, common_type, common, operator_type,
}
use waspas.Analysis.{AnalysisState}
use waspas.Analysis.Values.{and_then, variable_type, value_type, block_at}

-- The types that a subrange can have for its host.
abbrev pub is_host : PascalType → Bool
is_host type_boolean = true
is_host type_char = true
is_host type_integer = true
is_host (type_enumerated _ _) = true
is_host _ = false

-- An ordinal type that is no schema's: a host, or a subrange of one.
abbrev pub is_static : PascalType → Bool
is_static (type_subrange _ host _ _) = is_host host
is_static t = is_host t

-- The types that the constructors take: a subrange has a host, and a bound and the base of a set are
-- ordinal.
abbrev pub IsHosted : PascalType → Type 0
IsHosted (type_subrange _ host _ _) = is_host host ≡ true
IsHosted (type_subrange_dynamic _ _ _ bound) = is_static bound ≡ true
IsHosted (type_set _ base _) = is_static base ≡ true
IsHosted _ = Unit

abbrev pub IsPromoted : PascalType → Type 0
IsPromoted t = promoted t ≡ t

host-IsPromoted : (host : PascalType) → is_host host ≡ true → IsPromoted (full_range host)
unfolding promoted full_range
host-IsPromoted type_boolean h = refl
host-IsPromoted type_char h = refl
host-IsPromoted type_integer h = refl
host-IsPromoted (type_enumerated a n) h = refl
host-IsPromoted host h = cc

bound-IsPromoted : (bound : PascalType) → is_static bound ≡ true → IsPromoted (full_range bound)
unfolding full_range
bound-IsPromoted (type_subrange a host smallest largest) h = host-IsPromoted host h
bound-IsPromoted type_boolean h = host-IsPromoted type_boolean h
bound-IsPromoted bound h = host-IsPromoted bound h

host_set-IsPromoted :
    (a : ℕ) (host : PascalType) (packed : Bool)
    → is_host host ≡ true
    → IsPromoted (type_set a host packed)
unfolding promoted
host_set-IsPromoted a type_boolean packed h = refl
host_set-IsPromoted a type_char packed h = refl
host_set-IsPromoted a type_integer packed h = refl
host_set-IsPromoted a (type_enumerated b n) packed h = refl
host_set-IsPromoted a host packed h = cc

-- What is promoted stays so.
pub promoted-IsPromoted : (t : PascalType) → IsHosted t → IsPromoted (promoted t)
unfolding promoted full_range
promoted-IsPromoted (type_subrange a host smallest largest) h = host-IsPromoted host h
promoted-IsPromoted (type_subrange_dynamic a smallest largest bound) h = bound-IsPromoted bound h
promoted-IsPromoted (type_set a (type_subrange b host smallest largest) packed) h =
    host_set-IsPromoted (suc a) host packed h
promoted-IsPromoted (type_set a base packed) h = refl
promoted-IsPromoted t h = refl

-- No subexpression that gives an operator its type is a function designator, or a builtin.
abbrev pub IsPlain : SemExpression → Type 0
IsPlain (expression_function_designator _ _) = true ≡ false
IsPlain (expression_builtin _ _) = true ≡ false
IsPlain (expression_binary _ left right) = IsPlain left × IsPlain right
IsPlain (expression_negate operand) = IsPlain operand
IsPlain (expression_constant c) = IsPromoted (constant_type c)
IsPlain (expression_set_constructor _ (some t)) = IsPromoted t
IsPlain _ = Unit

common-IsPromoted : (l r : PascalType) → IsPromoted l → IsPromoted r → IsPromoted (common_type l r)
unfolding common_type
common-IsPromoted l r h k = elim (Bool-cases (is_assignment_compatible_with l r)) [
  | inl e ↦ rw (e, common_type) k
  | inr e ↦ rw (e, common_type) h
]

some_inj : {a b : PascalType} → some a ≡ some b → a ≡ b
some_inj h = cc h

-- The type that there is, if there is one.
abbrev AreAll : (PascalType → Type 0) → Option PascalType → Type 0
AreAll P o = (t : PascalType) → o ≡ some t → P t

both-IsPromoted :
    (l r : Option PascalType)
    → AreAll IsPromoted l
    → AreAll IsPromoted r
    → AreAll IsPromoted (common l r)
unfolding common_type
both-IsPromoted (some l) (some r) h k t e =
    subst IsPromoted (some_inj e) (common-IsPromoted l r (h l refl) (k r refl))
both-IsPromoted none r h k t e = absurd (true≢false (cc e))
both-IsPromoted (some l) none h k t e = absurd (true≢false (cc e))

operator_type-IsPromoted :
    (op : BinaryOperator) (l r : Option PascalType)
    → AreAll IsPromoted l
    → AreAll IsPromoted r
    → AreAll IsPromoted (operator_type op l r)
unfolding operator_type common_type promoted full_range
operator_type-IsPromoted operator_add l r h k t e = both-IsPromoted l r h k t e
operator_type-IsPromoted operator_multiply l r h k t e = both-IsPromoted l r h k t e
operator_type-IsPromoted operator_subtract l r h k t e = both-IsPromoted l r h k t e
operator_type-IsPromoted op l r h k t e = subst IsPromoted (some_inj e) refl

pub and_then-inv :
    {A B : Type 0} (o : Option A) (f : A → Option B) (b : B)
    → and_then o f ≡ some b
    → (a : A) × (o ≡ some a) × (f a ≡ some b)
and_then-inv (some a) f b h = (a, refl, h)
and_then-inv none f b h = absurd (true≢false (cc h))

map-inv :
    (o : Option PascalType) (f : PascalType → PascalType) (t : PascalType)
    → Option.map f o ≡ some t
    → (a : PascalType) × (o ≡ some a) × (f a ≡ t)
map-inv (some a) f t h = (a, refl, some_inj h)
map-inv none f t h = absurd (true≢false (cc h))

-- The types of variables and of bounds are such as the constructors make.
abbrev pub AccessesAreHosted : AnalysisState → List Scope → Type 0
AccessesAreHosted s scopes =
    (a : SemAccess) (t : PascalType) → variable_type s scopes a ≡ some t → IsHosted t

abbrev pub BoundsAreHosted : AnalysisState → List Scope → Type 0
BoundsAreHosted s scopes =
    (index : ℕ) (b : Block) (heading : Signature) (id : Text) (t : PascalType)
    → block_at s scopes index ≡ some b
    → b.containing_signature ≡ some heading
    → find_name id (bound_types (parameters heading)) ≡ some t
    → IsHosted t

-- An expression has a promoted type, and so no subrange type, unless its type comes from a function
-- designator or a builtin. The types of constants and of set constructors are promoted, and those
-- of variables and bounds are such as the constructors make.
pub value_type-IsPromoted :
    (s : AnalysisState) (scopes : List Scope) (e : SemExpression) (t : PascalType)
    → AccessesAreHosted s scopes
    → BoundsAreHosted s scopes
    → IsPlain e
    → value_type s scopes e ≡ some t
    → IsPromoted t
unfolding value_type promoted full_range
value_type-IsPromoted s scopes (expression_bound id index) t known bounds plain h =
    let (b, at, rest) = and_then-inv (block_at s scopes index) _ t h in
    let (heading, has, rest') = and_then-inv b.containing_signature _ t rest in
    let (a, found, e) =
      map-inv (find_name id (bound_types (parameters heading))) promoted t rest' in
    subst IsPromoted e (promoted-IsPromoted a (bounds index b heading id a at has found))
value_type-IsPromoted s scopes (expression_constant c) t known bounds plain h =
    subst IsPromoted (some_inj h) plain
value_type-IsPromoted s scopes (expression_function_designator r actuals) t known bounds plain h =
    absurd (true≢false plain)
value_type-IsPromoted s scopes expression_nil t known bounds plain h =
    subst IsPromoted (some_inj h) refl
value_type-IsPromoted s scopes (expression_binary op left right) t known bounds plain h =
    operator_type-IsPromoted op (value_type s scopes left) (value_type s scopes right)
      (λ l. value_type-IsPromoted s scopes left l known bounds plain.0)
      (λ r. value_type-IsPromoted s scopes right r known bounds plain.1) t h
value_type-IsPromoted s scopes (expression_negate operand) t known bounds plain h =
    value_type-IsPromoted s scopes operand t known bounds plain h
value_type-IsPromoted s scopes (expression_not operand) t known bounds plain h =
    subst IsPromoted (some_inj h) refl
value_type-IsPromoted s scopes (expression_set_constructor designators none) t known bounds plain
      h =
    subst IsPromoted (some_inj h) refl
value_type-IsPromoted s scopes (expression_set_constructor designators (some made)) t known bounds
      plain h =
    subst IsPromoted (some_inj h) plain
value_type-IsPromoted s scopes (expression_access access) t known bounds plain h =
    let (a, found, e) = map-inv (variable_type s scopes access) promoted t h in
    subst IsPromoted e (promoted-IsPromoted a (known access a found))
value_type-IsPromoted s scopes (expression_builtin type operands) t known bounds plain h =
    absurd (true≢false plain)
