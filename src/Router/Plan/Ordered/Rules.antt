-- ===== src/Router/Plan/Ordered/Rules.antt =====
-- What it means that a route is ordered, and the binds that keep it so.
use kingshard.Prelude.{
  ℤ, List, IsSorted, ◌≡◌, refl, ◌∙◌, ltb_ℤ, Bool-cases, inl, inr, if◌then◌else◌,
}
use kingshard.Outcome.{Result, ok, err, panic, ◌>>=◌}
use kingshard.Sqlparser.Ast.{ValExpr}
use kingshard.Router.IntList.{make_list}
use kingshard.Router.IntList.Slices.{count_from-IsSorted}
use kingshard.Router.Plan.Values.{Plan, get_value_type}
use kingshard.Router.Plan.Leaves.{is_eid}

-- Where the call returns, it returns a sorted list and a plan with the same rule.
abbrev pub Ordered : Plan → Result (List ℤ × Plan) → Type 0
Ordered plan (ok (l, p)) =
    IsSorted l × (p.rule ≡ plan.rule) × (p.route_table_indexs ≡ plan.route_table_indexs)
Ordered plan (err e) = Unit {0}
Ordered plan (panic p) = Unit {0}

-- The rule of a bind: what its first part returns does not matter.
pub >>=-Ordered :
    {A : Type 0} (plan : Plan) (m : Result A) (f : A → Result (List ℤ × Plan))
    → ((a : A) → Ordered plan (f a))
    → Ordered plan (m >>= f)
>>=-Ordered plan (ok a) f h = h a
>>=-Ordered plan (err e) f h = tt
>>=-Ordered plan (panic p) f h = tt

pub bind-Ordered :
    {A : Type 0} (plan : Plan) (m : Result A) (f : A → Result (List ℤ × Plan))
    → ((a : A) → m ≡ ok a → Ordered plan (f a))
    → Ordered plan (m >>= f)
bind-Ordered plan (ok a) f h = h a refl
bind-Ordered plan (err e) f h = tt
bind-Ordered plan (panic p) f h = tt

-- Both sides of a test on the left operand.
pub side :
    (plan : Plan) (l : ValExpr) (x y : Result (List ℤ × Plan))
    → Ordered plan x
    → Ordered plan y
    → Ordered plan (if is_eid (get_value_type plan.rule l) then x else y)
side plan l x y h k = elim (Bool-cases (is_eid (get_value_type plan.rule l))) [
  | inl e ↦ rw e h
  | inr e ↦ rw e k
]

-- The same where the first part returns a route itself.
pub then-Ordered :
    (plan : Plan) (m : Result (List ℤ × Plan)) (f : List ℤ × Plan → Result (List ℤ × Plan))
    → Ordered plan m
    → ((l : List ℤ) (p : Plan)
        → IsSorted l
        → p.rule ≡ plan.rule
        → p.route_table_indexs ≡ plan.route_table_indexs
        → Ordered plan (f (l, p)))
    → Ordered plan (m >>= f)
then-Ordered plan (ok (l, p)) f o h = h l p o.0 o.1 o.2
then-Ordered plan (err e) f o h = tt
then-Ordered plan (panic p) f o h = tt

-- The same from a plan `p` in the middle, with the rule and the routes of `plan`.
pub then-Ordered' :
    (plan p : Plan) (m : Result (List ℤ × Plan)) (f : List ℤ × Plan → Result (List ℤ × Plan))
    → p.rule ≡ plan.rule
    → p.route_table_indexs ≡ plan.route_table_indexs
    → Ordered p m
    → ((l : List ℤ) (q : Plan)
        → IsSorted l
        → q.rule ≡ plan.rule
        → q.route_table_indexs ≡ plan.route_table_indexs
        → Ordered plan (f (l, q)))
    → Ordered plan (m >>= f)
then-Ordered' plan p (ok (l, q)) f e g o h = h l q o.0 (o.1 ∙ e) (o.2 ∙ g)
then-Ordered' plan p (err x) f e g o h = tt
then-Ordered' plan p (panic x) f e g o h = tt

pub make_list-Ordered :
    (plan : Plan) (a b : ℤ) (f : List ℤ → Result (List ℤ × Plan))
    → ((l : List ℤ) → IsSorted l → Ordered plan (f l))
    → Ordered plan (make_list a b >>= f)
unfolding make_list
make_list-Ordered plan a b f h = elim (Bool-cases (ltb_ℤ b a)) [
  | inl short ↦ rw (short, ◌>>=◌, Ordered) tt
  | inr long ↦ rw (long, ◌>>=◌) (h _ (count_from-IsSorted a _))
]
