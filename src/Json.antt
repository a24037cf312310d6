-- ===== src/Json.antt =====
-- JSON values as Python holds them after `json.loads`, and the accesses by which the SBOM processors
-- of sbom-graph-model read them. A dictionary is the list of its items in order, and reads find the
-- first of a key; `null` is Python's None. A number stands by its literal, with its truth value.
use sbom_graph.Prelude.{
  Bool, true, false, not, List, [], ◌∷◌, map, String, ◌==◌, ◌≡◌, refl, ◌⊎◌, inl, inr, if◌then◌else◌,
}

mutual
  pub data Json : Type 0 where
    null : Json
    boolean : Bool → Json
    number : String → Bool → Json
    text : String → Json
    array : Items → Json
    object : Fields → Json

  pub data Items : Type 0 where
    nil : Items
    cons : Json → Items → Items

  pub data Fields : Type 0 where
    blank : Fields
    entry : String → Json → Fields → Fields

-- The ways in which processing a document ends without a result: `invalid` by a raise of the
-- processor's own error, `raises` by another exception (KeyError, TypeError, AttributeError), and
-- `untyped` where the document has a value of a type that the model does not follow (a reference
-- or an id that is not a text).
pub data Error (I : Type 0) : Type 0 where
  invalid : I → Error I
  raises : Error I
  untyped : Error I

pub data Result (I A : Type 0) : Type 0 where
  ok : A → Result I A
  err : Error I → Result I A

infixl 5 ◌>>=◌ ◌>>◌
abbrev pub ◌>>=◌ : {I A B : Type 0} → Result I A → (A → Result I B) → Result I B
ok a >>= f = f a
err e >>= f = err e

abbrev pub ◌>>◌ : {I B : Type 0} → Result I (Unit {0}) → Result I B → Result I B
m >> k = m >>= λ _. k

abbrev pub guard : {I : Type 0} → Bool → Error I → Result I (Unit {0})
guard true e = ok tt
guard false e = err e

-- A list comprehension whose body may raise.
unfoldable pub traverse : {I A B : Type 0} → (A → Result I B) → List A → Result I (List B)
traverse f [] = ok []
traverse f (a ∷ rest) = f a >>= λ b. traverse f rest >>= λ bs. ok (b ∷ bs)

unfoldable pub items : Items → List Json
items nil = []
items (cons j js) = j ∷ items js

-- `obj.get(key, default)`
unfoldable pub get_or : String → Json → Fields → Json
get_or key default blank = default
get_or key default (entry k j fs) = if k == key then j else get_or key default fs

-- `obj.get(key)`
unfoldable pub get : String → Fields → Json
unfolding get_or
get key fs = get_or key null fs

-- `key in obj`
unfoldable pub has_key : String → Fields → Bool
has_key key blank = false
has_key key (entry k j fs) = if k == key then true else has_key key fs

unfoldable pub keys : Fields → List String
keys blank = []
keys (entry k j fs) = k ∷ keys fs

-- `bool(value)`
unfoldable pub truthy : Json → Bool
truthy null = false
truthy (boolean b) = b
truthy (number literal nonzero) = nonzero
truthy (text s) = not (s == "")
truthy (array nil) = false
truthy (array (cons j js)) = true
truthy (object blank) = false
truthy (object (entry k j fs)) = true

-- `value or other`
unfoldable pub or_else : Json → Json → Json
unfolding truthy
or_else value other = if truthy value then value else other

-- `value == s` for a text `s`
unfoldable pub is_text : String → Json → Bool
is_text s (text t) = t == s
is_text s _ = false

-- The dictionary of a value that the code calls `.get` on.
unfoldable pub as_dict : {I : Type 0} → Json → Result I Fields
as_dict (object fs) = ok fs
as_dict _ = err raises

-- `value[key]` for a text `key`
unfoldable pub index : {I : Type 0} → String → Json → Result I Json
unfolding has_key get
index key (object fs) = if has_key key fs then ok (get key fs) else err raises
index key _ = err raises

-- The characters of a text, each a text of its own.
unfoldable pub characters : String → List Json
characters String.[] = []
characters (String.◌∷◌ c s) = text (String.◌∷◌ c String.[]) ∷ characters s

-- The values that `for x in value` runs over.
unfoldable pub iterate : {I : Type 0} → Json → Result I (List Json)
unfolding items keys characters
iterate (array js) = ok (items js)
iterate (object fs) = ok (map (λ k. text k) (keys fs))
iterate (text s) = ok (characters s)
iterate _ = err raises

-- A value used as the key of a dictionary; lists and dictionaries do not hash.
unfoldable pub as_key : {I : Type 0} → Json → Result I String
as_key (text s) = ok s
as_key (array js) = err raises
as_key (object fs) = err raises
as_key _ = err untyped

-- `P` of the result, if there is one.
unfoldable pub Ok : {I A : Type 0} → (A → Type 0) → Result I A → Type 0
Ok P (ok a) = P a
Ok P (err e) = Unit

pub bind-Ok :
    {I A B : Type 0} (P : B → Type 0) (m : Result I A) (f : A → Result I B)
    → ((a : A) → m ≡ ok a → Ok P (f a))
    → Ok P (m >>= f)
unfolding Ok
bind-Ok P (ok a) f h = h a refl
bind-Ok P (err e) f h = tt

pub Result-cases :
    {I A : Type 0} (r : Result I A) → ((a : A) × (r ≡ ok a)) ⊎ ((e : Error I) × (r ≡ err e))
Result-cases (ok a) = inl (a, refl)
Result-cases (err e) = inr (e, refl)
