-- ===== src/Config/Layers.antt =====
-- `Mask` of core/base.go: what each object of the result comes from.
use laforge.Base.{
  ℕ, zero, suc, String, Bool, true, false, ◌≡◌, refl, sym, ap, ◌∙◌, inl, inr, Option, none, some,
  List, [], ◌∷◌, arith, ◌==◌, str_eq, eq_iff, Bool-cases, if◌then◌else◌, subst,
}
use laforge.Base.Eq.{string_eq, nat_same_iff}
use laforge.Base.Assoc.{lookup, insert, lookup-insert, lookup-insert_self}
use laforge.Base.Unique.{Unique}
use laforge.Config.{
  Object, Kind, hosts, networks, identities, scripts, commands, remote_files, dns_records,
  competitions, environments, builds, teams, provisioned_networks, provisioned_hosts,
  provisioning_steps, connections, number, kinds, Merged, ok, err, smart_merge, Objects, Masked,
  masked, refused, put, mask_object, and_then, mask_kind, Namespace, with_kind, mask_kinds, mask,
  Laforge, update, with_registry, with_user, relocated,
}

-- The kinds by their numbers.
nth : ℕ → List Kind → Kind
nth n [] = hosts
nth zero (k ∷ ks) = k
nth (suc n) (k ∷ ks) = nth n ks

nth-number : (k : Kind) → nth (number k) kinds ≡ k
unfolding nth number
nth-number hosts = refl
nth-number networks = refl
nth-number identities = refl
nth-number scripts = refl
nth-number commands = refl
nth-number remote_files = refl
nth-number dns_records = refl
nth-number competitions = refl
nth-number environments = refl
nth-number builds = refl
nth-number teams = refl
nth-number provisioned_networks = refl
nth-number provisioned_hosts = refl
nth-number provisioning_steps = refl
nth-number connections = refl

number-injective : (k j : Kind) → number k ≡ number j → k ≡ j
number-injective k j e = sym (nth-number k) ∙ ap (λ n. nth n kinds) e ∙ nth-number j

abbrev has_kind : ℕ → List Kind → Bool
has_kind n [] = false
has_kind n (k ∷ ks) = if number k == n then true else has_kind n ks

kinds_complete : (k : Kind) → has_kind (number k) kinds ≡ true
unfolding number
kinds_complete hosts = refl
kinds_complete networks = refl
kinds_complete identities = refl
kinds_complete scripts = refl
kinds_complete commands = refl
kinds_complete remote_files = refl
kinds_complete dns_records = refl
kinds_complete competitions = refl
kinds_complete environments = refl
kinds_complete builds = refl
kinds_complete teams = refl
kinds_complete provisioned_networks = refl
kinds_complete provisioned_hosts = refl
kinds_complete provisioning_steps = refl
kinds_complete connections = refl

abbrev Different : List Kind → Type 0
Different [] = Unit
Different (k ∷ ks) = (has_kind (number k) ks ≡ false) × Different ks

kinds-Different : Different kinds
unfolding number
kinds-Different = (
  refl,
  (
    refl,
    (
      refl,
      (
        refl,
        (refl, (refl, (refl, (refl, (refl, (refl, (refl, (refl, (refl, (refl, (refl, tt))))))))))),
      ),
    ),
  ),
)

module _ {Fields : Type 0}
    (merge : Bool → Object Fields → Object Fields → Object Fields × Bool) where
  -- What an entry of the result comes from, by the entries of the base and of the layer.
  abbrev pub IsMaskOf :
      Kind → Option (Object Fields) → Option (Object Fields) → Option (Object Fields) → Type 0
  IsMaskOf k none l r = r ≡ l
  IsMaskOf k (some o) none r = r ≡ some o
  IsMaskOf k (some o) (some l) r =
      (m : Object Fields) × (smart_merge merge k o l ≡ ok m) × (r ≡ some m)

  and_then-eq-masked :
      {A B : Type 0} (x : Masked merge A) (f : A → Masked merge B) (b : B)
      → and_then merge x f ≡ masked b
      → (a : A) × (x ≡ masked a) × (f a ≡ masked b)
  unfolding and_then
  and_then-eq-masked (masked a) f b e = (a, refl, e)
  and_then-eq-masked (refused x) f b e = cc

  put-eq-masked :
      (name : String) (x : Merged merge) (base out : Objects merge)
      → put merge name x base ≡ masked out
      → (m : Object Fields) × (x ≡ ok m) × (out ≡ insert name m base)
  unfolding put
  put-eq-masked name (ok m) base out e = (m, refl, cc)
  put-eq-masked name (err x) base out e = cc

  mask_object_self :
      (k : Kind) (name : String) (obj : Object Fields) (o : Option (Object Fields))
      (base out : Objects merge)
      → mask_object merge k name obj o base ≡ masked out
      → IsMaskOf k o (some obj) (lookup name out)
  unfolding mask_object
  mask_object_self k name obj none base out e =
      let q : insert name obj base ≡ out = cc in
      ap (lookup name) (sym q) ∙ lookup-insert_self name obj base
  mask_object_self k name obj (some orig) base out e =
      let (m, p, q) = put-eq-masked name (smart_merge merge k orig obj) base out e in
      (m, p, ap (lookup name) q ∙ lookup-insert_self name m base)

  mask_object_other :
      (k : Kind) (name j : String) (obj : Object Fields) (o : Option (Object Fields))
      (base out : Objects merge)
      → str_eq name j ≡ false
      → mask_object merge k name obj o base ≡ masked out
      → lookup j out ≡ lookup j base
  unfolding mask_object
  mask_object_other k name j obj none base out c e =
      let q : insert name obj base ≡ out = cc in
      ap (lookup j) (sym q) ∙ lookup-insert name j obj base ∙ rw c refl
  mask_object_other k name j obj (some orig) base out c e =
      let (m, p, q) = put-eq-masked name (smart_merge merge k orig obj) base out e in
      ap (lookup j) q ∙ lookup-insert name j m base ∙ rw c refl

  IsMaskOf-none : (k : Kind) (o : Option (Object Fields)) → IsMaskOf k o none o
  IsMaskOf-none k none = refl
  IsMaskOf-none k (some o) = refl

  mask_kind-untouched :
      (k : Kind) (layer base out : Objects merge) (j : String)
      → lookup j layer ≡ none
      → mask_kind merge k layer base ≡ masked out
      → lookup j out ≡ lookup j base
  unfolding mask_kind lookup
  mask_kind-untouched k [] base out j h e = let q : base ≡ out = cc in ap (lookup j) (sym q)
  mask_kind-untouched k ((name, obj) ∷ layer) base out j h e =
      let (b, p, q) =
        and_then-eq-masked (mask_object merge k name obj (lookup name base) base) _ out e in
      elim (Bool-cases (str_eq name j)) [
        | inl c ↦ ground (arith, h, c)
        | inr c ↦
            mask_kind-untouched k layer b out j (ground (arith, h, c)) q
            ∙ mask_object_other k name j obj (lookup name base) base b c p
      ]

  mask_kind-IsMaskOf :
      (k : Kind) (layer base out : Objects merge) (j : String)
      → Unique layer
      → mask_kind merge k layer base ≡ masked out
      → IsMaskOf k (lookup j base) (lookup j layer) (lookup j out)
  unfolding mask_kind lookup
  mask_kind-IsMaskOf k [] base out j u e =
      let q : base ≡ out = cc in
      subst (λ x. IsMaskOf k (lookup j base) none (lookup j x)) q (IsMaskOf-none k (lookup j base))
  mask_kind-IsMaskOf k ((name, obj) ∷ layer) base out j u e =
      let (b, p, q) =
        and_then-eq-masked (mask_object merge k name obj (lookup name base) base) _ out e in
      elim (Bool-cases (str_eq name j)) [
        | inl c ↦
            let n : name ≡ j = (eq_iff name j).0 c in
            let known : lookup name layer ≡ none = ground (arith, u.0) in
            let r = mask_object_self k name obj (lookup name base) base b p in
            let kept : lookup name b ≡ lookup name out =
              sym (mask_kind-untouched k layer b out name known q) in
            rw c (
              subst (λ x. IsMaskOf k (lookup x base) (some obj) (lookup x out)) n
                (subst (λ x. IsMaskOf k (lookup name base) (some obj) x) kept r))
        | inr c ↦ rw c (
            subst (λ x. IsMaskOf k x (lookup j layer) (lookup j out))
              (mask_object_other k name j obj (lookup name base) base b c p)
              (mask_kind-IsMaskOf k layer b out j u.1 q))
      ]

  mask_kinds-untouched :
      (ks : List Kind) (layer base out : Namespace merge) (j : Kind)
      → has_kind (number j) ks ≡ false
      → mask_kinds merge ks layer base ≡ masked out
      → out j ≡ base j
  unfolding mask_kinds with_kind
  mask_kinds-untouched [] layer base out j h e = let q : base ≡ out = cc in ap (λ s. s j) (sym q)
  mask_kinds-untouched (k ∷ ks) layer base out j h e =
      let (objects, p, q) = and_then-eq-masked (mask_kind merge k (layer k) (base k)) _ out e in
      let c : (number k == number j) ≡ false = ground (arith, h) in
      mask_kinds-untouched ks layer (with_kind merge k objects base) out j (ground (arith, h)) q
      ∙ rw c refl

  mask_kinds-each :
      (ks : List Kind) (layer base out : Namespace merge) (j : Kind)
      → Different ks
      → has_kind (number j) ks ≡ true
      → mask_kinds merge ks layer base ≡ masked out
      → mask_kind merge j (layer j) (base j) ≡ masked (out j)
  unfolding mask_kinds with_kind
  mask_kinds-each [] layer base out j d h e = cc
  mask_kinds-each (k ∷ ks) layer base out j d h e =
      let (objects, p, q) = and_then-eq-masked (mask_kind merge k (layer k) (base k)) _ out e in
      elim (Bool-cases (number k == number j)) [
        | inl c ↦
            let n : k ≡ j = number-injective k j ((nat_same_iff (number k) (number j)).0 c) in
            let same : out k ≡ with_kind merge k objects base k =
              mask_kinds-untouched ks layer (with_kind merge k objects base) out k d.0 q in
            let here : with_kind merge k objects base k ≡ objects =
              rw ((nat_same_iff (number k) (number k)).1 refl) refl in
            subst (λ x. mask_kind merge x (layer x) (base x) ≡ masked (out x)) n
              (p ∙ ap masked (sym (same ∙ here)))
        | inr c ↦
            let here : with_kind merge k objects base j ≡ base j = rw c refl in
            subst (λ b. mask_kind merge j (layer j) b ≡ masked (out j)) here
              (mask_kinds-each ks layer (with_kind merge k objects base) out j d.1
                (ground (arith, h, c)) q)
      ]

module _ {Fields Registry User : Type 0}
    (merge : Bool → Object Fields → Object Fields → Object Fields × Bool)
    (merge_registry : Registry → Registry → Registry × Bool)
    (merge_user : User → User → User × Bool) (no_user : User) where
  with_user-objects :
      (l out : Laforge merge merge_registry merge_user no_user) (u : User × Bool)
      → with_user merge merge_registry merge_user no_user l u ≡ masked out
      → out.objects ≡ l.objects
  unfolding with_user
  with_user-objects l out (u, true) h = cc
  with_user-objects l out (u, false) h =
      let q : record l { user = some u } ≡ out = cc in ap (λ x. x.objects) (sym q)

  with_registry-objects :
      (l diff out : Laforge merge merge_registry merge_user no_user) (r : Registry × Bool)
      → with_registry merge merge_registry merge_user no_user l diff r ≡ masked out
      → out.objects ≡ l.objects
  unfolding with_registry relocated
  with_registry-objects l diff out (r, true) h = cc
  with_registry-objects l diff out (r, false) h =
      with_user-objects (relocated merge merge_registry merge_user no_user l diff r) out _ h

  update-objects :
      (l diff out : Laforge merge merge_registry merge_user no_user)
      → update merge merge_registry merge_user no_user l diff ≡ masked out
      → out.objects ≡ l.objects
  unfolding update
  update-objects l diff out e =
      with_registry-objects l diff out (merge_registry l.path_registry diff.path_registry) e

  -- If a layer whose names differ is laid over a base and neither a merge of two objects nor the update
  -- of the base itself has an error, an object that only the base has is kept, an object that only the
  -- layer has is taken over, and where both have one, the result is their smart merge, which
  -- succeeded; this holds for all fifteen kinds of objects, with what each kind does with slices where
  -- nothing is said, and whatever mergo's merges do.
  pub mask-IsMaskOf :
      (base layer out : Laforge merge merge_registry merge_user no_user) (k : Kind) (name : String)
      → Unique (layer.objects k)
      → mask merge merge_registry merge_user no_user base layer ≡ masked out
      → IsMaskOf merge k
          (lookup name (base.objects k))
          (lookup name (layer.objects k))
          (lookup name (out.objects k))
  unfolding mask
  mask-IsMaskOf base layer out k name u e =
      let (space, p, q) =
        and_then-eq-masked merge (mask_kinds merge kinds layer.objects base.objects) _ out e in
      subst
        (λ s.
          IsMaskOf merge k (lookup name (base.objects k)) (lookup name (layer.objects k))
            (lookup name (s k)))
        (sym (update-objects (record base { objects = space }) layer out q))
        (mask_kind-IsMaskOf merge k (layer.objects k) (base.objects k) (space k) name u (
          mask_kinds-each merge kinds layer.objects base.objects space k kinds-Different
            (kinds_complete k) p))
