-- ===== src/Pipeline/Shallow.antt =====
-- The arguments of a step that has been loaded, and what a loaded value is like.
use agent_backend.Prelude.{
  String, ◌≡◌, refl, subst, Bool, true, false, Option, none, some, if◌then◌else◌,
}
use agent_backend.Json.{Json, null, bool, num, str, arr, obj, Fields, end, field, get}
use agent_backend.Workflow.Compaction.{text_of}
use agent_backend.Pipeline.Models.{Arg, binding, text, nested, other, Args, none_left, arg}
use agent_backend.Pipeline.Names.{is_binding_path}
use agent_backend.Pipeline.Loader.{
  Templates, LoadError, deep_path, Loading, loaded, refused, ◌>>=◌, bind_entries, parse_bind,
  and_field, only_bind, dict_value, parse_arg_value, parse_args,
}

-- Every binding, at any depth, has a path that the regular expression accepts.
mutual
  pub data ArgIsShallow : Arg → Type 0 where
    binding_path :
        (from_step path : String)
        → is_binding_path path ≡ true
        → ArgIsShallow (binding from_step path)
    plain_text : (s : String) → ArgIsShallow (text s)
    plain_value : (v : Json) → ArgIsShallow (other v)
    inside : (args : Args) → ArgsAreShallow args → ArgIsShallow (nested args)

  pub data ArgsAreShallow : Args → Type 0 where
    no_args : ArgsAreShallow none_left
    and_arg :
        (k : String) (v : Arg) (rest : Args)
        → ArgIsShallow v
        → ArgsAreShallow rest
        → ArgsAreShallow (arg k v rest)

-- A statement about what is loaded, if anything is.
pub record Gives {A : Type 0} (P : A → Type 0) (m : Loading A) : Type 0 where
  pub given : (a : A) → m ≡ loaded a → P a

pub Gives-loaded : {A : Type 0} (P : A → Type 0) (a : A) → P a → Gives P (loaded a)
Gives-loaded P a p = record { given = λ b e. subst P (cc (e)) p }

pub Gives-refused : {A : Type 0} (P : A → Type 0) (e : LoadError) → Gives P (refused e)
Gives-refused P e = record { given = λ b h. absurd (cc (h)) }

pub Gives-bind :
    {A B : Type 0} (P : A → Type 0) (Q : B → Type 0) (m : Loading A) (f : A → Loading B)
    → Gives P m
    → ((a : A) → P a → Gives Q (f a))
    → Gives Q (m >>= f)
Gives-bind P Q (loaded a) f p q = q a (p.given a refl)
Gives-bind P Q (refused e) f p q = Gives-refused Q e

-- Whatever is loaded first.
pub Gives-after :
    {A B : Type 0} (Q : B → Type 0) (m : Loading A) (f : A → Loading B)
    → ((a : A) → Gives Q (f a))
    → Gives Q (m >>= f)
Gives-after Q (loaded a) f q = q a
Gives-after Q (refused e) f q = Gives-refused Q e

module _ (t : Templates) where
  bind_path-IsShallow :
      (from_step path : String) (b : Bool)
      → is_binding_path path ≡ b
      → Gives ArgIsShallow (if b then loaded (binding from_step path) else refused (deep_path path))
  bind_path-IsShallow from_step path true e =
      Gives-loaded ArgIsShallow (binding from_step path) (binding_path from_step path e)
  bind_path-IsShallow from_step path false e = Gives-refused ArgIsShallow (deep_path path)

  bind_entries-IsShallow :
      (from_step path : Option Json) → Gives ArgIsShallow (bind_entries t from_step path)
  bind_entries-IsShallow none none = Gives-refused ArgIsShallow _
  bind_entries-IsShallow none (some path) = Gives-refused ArgIsShallow _
  bind_entries-IsShallow (some from_step) none = Gives-refused ArgIsShallow _
  bind_entries-IsShallow (some from_step) (some path) =
      bind_path-IsShallow (text_of t.show from_step) (text_of t.show path)
        (is_binding_path (text_of t.show path)) refl

  parse_bind-IsShallow : (v : Json) → Gives ArgIsShallow (parse_bind t v)
  parse_bind-IsShallow (obj fs) = bind_entries-IsShallow (get "from_step" fs) (get "path" fs)
  parse_bind-IsShallow null = Gives-refused ArgIsShallow _
  parse_bind-IsShallow (bool b) = Gives-refused ArgIsShallow _
  parse_bind-IsShallow (num n) = Gives-refused ArgIsShallow _
  parse_bind-IsShallow (str s) = Gives-refused ArgIsShallow _
  parse_bind-IsShallow (arr vs) = Gives-refused ArgIsShallow _

  dict_value-IsShallow :
      (o : Option Json) (m : Loading Args)
      → Gives ArgsAreShallow m
      → Gives ArgIsShallow (dict_value t o m)
  dict_value-IsShallow (some inner) m g = parse_bind-IsShallow inner
  dict_value-IsShallow none m g =
      Gives-bind ArgsAreShallow ArgIsShallow m (λ args. loaded (nested args)) g
        (λ args p. Gives-loaded ArgIsShallow (nested args) (inside args p))

  and_field-AreShallow :
      (k : String) (v : Loading Arg) (rest : Loading Args)
      → Gives ArgIsShallow v
      → Gives ArgsAreShallow rest
      → Gives ArgsAreShallow (and_field t k v rest)
  and_field-AreShallow k v rest p q = Gives-bind ArgIsShallow ArgsAreShallow v _ p (λ v' pv.
      Gives-bind ArgsAreShallow ArgsAreShallow rest _ q
        (λ rest' pr. Gives-loaded ArgsAreShallow (arg k v' rest') (and_arg k v' rest' pv pr)))

  mutual
    unfolding parse_arg_value parse_args

    parse_arg_value-IsShallow : (v : Json) → Gives ArgIsShallow (parse_arg_value t v)
    parse_arg_value-IsShallow (obj fs) =
        dict_value-IsShallow (only_bind t fs) (parse_args t fs) (parse_args-AreShallow fs)
    parse_arg_value-IsShallow (str s) = Gives-loaded ArgIsShallow (text s) (plain_text s)
    parse_arg_value-IsShallow null = Gives-loaded ArgIsShallow (other null) (plain_value null)
    parse_arg_value-IsShallow (bool b) =
        Gives-loaded ArgIsShallow (other (bool b)) (plain_value (bool b))
    parse_arg_value-IsShallow (num n) =
        Gives-loaded ArgIsShallow (other (num n)) (plain_value (num n))
    parse_arg_value-IsShallow (arr vs) =
        Gives-loaded ArgIsShallow (other (arr vs)) (plain_value (arr vs))

    pub parse_args-AreShallow : (fs : Fields) → Gives ArgsAreShallow (parse_args t fs)
    parse_args-AreShallow end = Gives-loaded ArgsAreShallow none_left no_args
    parse_args-AreShallow (field k v fs) =
        and_field-AreShallow k (parse_arg_value t v) (parse_args t fs) (parse_arg_value-IsShallow v)
          (parse_args-AreShallow fs)
