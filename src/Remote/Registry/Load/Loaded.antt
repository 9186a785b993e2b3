-- ===== src/Remote/Registry/Load/Loaded.antt =====
-- What a registry that was loaded answers from.
use ptymux.Remote.Registry.{max_registry_size}
use ptymux.Remote.Registry.Client.{Crypto, StoredClient, validate_stored_client}
use ptymux.Remote.Registry.Load.{
  RegistryFile, Load, loaded, rejected, is_known, is_registry_version, load_clients, listed, load,
}
use ptymux.Server.Protocol.{one_of}
use ptymux.Std.Map.{Map, lookup, insert, lookup-insert, lookup-insert-other}
use ptymux.Prelude.{
  ◌≡◌, refl, sym, ◌∙◌, subst, inl, inr, false, not, Option, none, some, List, [], ◌∷◌, ltb,
  Bool-cases, All, Bytes, bytes_eq, bytes_eq_iff, if-intro, Option-intro,
}

-- A property of the clients, if they were loaded.
unfoldable pub IfLoaded : (Map StoredClient → Type 0) → Load → Type 0
IfLoaded P (loaded clients) = P clients
IfLoaded P (rejected e) = Unit {0}

not_known : (o : Option StoredClient) → is_known o ≡ false → o ≡ none
unfolding is_known
not_known none h = refl
not_known (some c) h = absurd cc

names_differ :
    (a b : Bytes) (clients : Map StoredClient) (d : StoredClient)
    → lookup a clients ≡ none
    → lookup b clients ≡ some d
    → bytes_eq a b ≡ false
names_differ a b clients d h k = elim (Bool-cases (bytes_eq a b)) [
  | inl e ↦ let same = (bytes_eq_iff a b).0 e in absurd cc
  | inr e ↦ e
]

both :
    (P Q : Map StoredClient → Type 0) (r : Load)
    → IfLoaded P r
    → IfLoaded Q r
    → IfLoaded (λ m. P m × Q m) r
unfolding IfLoaded
both P Q (loaded m) p q = (p, q)
both P Q (rejected e) p q = tt

module _ (lib : Crypto) where
  -- one round of the loop
  round :
      (P : Map StoredClient → Type 0) (c : StoredClient) (cs : List StoredClient)
      (clients : Map StoredClient) (owners : List Bytes)
      → (validate_stored_client lib c ≡ none
          → lookup c.name clients ≡ none
          → IfLoaded P (load_clients lib cs (insert c.name c clients) (c.owner_id ∷ owners)))
      → IfLoaded P (load_clients lib (c ∷ cs) clients owners)
  unfolding load_clients IfLoaded
  round P c cs clients owners rest =
      Option-intro (IfLoaded P) (validate_stored_client lib c)
        (λ valid.
          if-intro (IfLoaded P) (is_known (lookup c.name clients)) (λ _. tt)
            (λ fresh.
              if-intro (IfLoaded P) (one_of c.owner_id owners) (λ _. tt)
                (λ _. rest valid (not_known (lookup c.name clients) fresh))))
        (λ e _. tt)

  kept :
      (cs : List StoredClient) (clients : Map StoredClient) (owners : List Bytes) (n : Bytes)
      (d : StoredClient)
      → lookup n clients ≡ some d
      → IfLoaded (λ m. lookup n m ≡ some d) (load_clients lib cs clients owners)
  unfolding IfLoaded load_clients
  kept [] clients owners n d h = h
  kept (c ∷ cs) clients owners n d h =
      round (λ m. lookup n m ≡ some d) c cs clients owners
        (λ _ fresh.
          kept cs (insert c.name c clients) (c.owner_id ∷ owners) n d
            (lookup-insert-other c.name c clients n (names_differ c.name n clients d fresh h) ∙ h))

  -- a client of the file that is valid and found under its name
  abbrev pub IsStored : Map StoredClient → StoredClient → Type 0
  IsStored m c = (lookup c.name m ≡ some c) × (validate_stored_client lib c ≡ none)

  with_valid :
      (cs : List StoredClient) (c : StoredClient) (r : Load)
      → validate_stored_client lib c ≡ none
      → IfLoaded (λ m. (lookup c.name m ≡ some c) × All (IsStored m) cs) r
      → IfLoaded (λ m. All (IsStored m) (c ∷ cs)) r
  unfolding IfLoaded
  with_valid cs c (loaded m) valid (here, rest) = ((here, valid), rest)
  with_valid cs c (rejected e) valid h = tt

  load_clients-All :
      (cs : List StoredClient) (clients : Map StoredClient) (owners : List Bytes)
      → IfLoaded (λ m. All (IsStored m) cs) (load_clients lib cs clients owners)
  unfolding IfLoaded load_clients
  load_clients-All [] clients owners = tt
  load_clients-All (c ∷ cs) clients owners =
      round (λ m. All (IsStored m) (c ∷ cs)) c cs clients owners
        (λ valid fresh.
          let next = insert c.name c clients in
          let rest = load_clients lib cs next (c.owner_id ∷ owners) in
          with_valid cs c rest valid (
            both (λ m. lookup c.name m ≡ some c) (λ m. All (IsStored m) cs) rest
              (kept cs next (c.owner_id ∷ owners) c.name c (lookup-insert c.name c clients))
              (load_clients-All cs next (c.owner_id ∷ owners))))

  -- Every client is valid, and stands under its name.
  Sound : Map StoredClient → Type 0
  Sound m =
      (n : Bytes) (c : StoredClient)
      → lookup n m ≡ some c
      → (c.name ≡ n) × (validate_stored_client lib c ≡ none)

  insert-Sound :
      (m : Map StoredClient) (c : StoredClient)
      → validate_stored_client lib c ≡ none
      → Sound m
      → Sound (insert c.name c m)
  unfolding Sound
  insert-Sound m c valid h n d found = elim (Bool-cases (bytes_eq c.name n)) [
    | inl e ↦
        let same = (bytes_eq_iff c.name n).0 e in
        let inserted = lookup-insert c.name c m in
        let equal : some c ≡ some d = cc in
        let client : c ≡ d = cc in
        subst (λ x. (x.name ≡ n) × (validate_stored_client lib x ≡ none)) client (same, valid)
    | inr e ↦ h n d (sym (lookup-insert-other c.name c m n e) ∙ found)
  ]

  clients-Sound :
      (cs : List StoredClient) (clients : Map StoredClient) (owners : List Bytes)
      → Sound clients
      → IfLoaded Sound (load_clients lib cs clients owners)
  unfolding IfLoaded load_clients
  clients-Sound [] clients owners h = h
  clients-Sound (c ∷ cs) clients owners h = round Sound c cs clients owners (λ valid _.
      clients-Sound cs (insert c.name c clients) (c.owner_id ∷ owners)
        (insert-Sound clients c valid h))

  nothing-Sound : Sound []
  unfolding Sound lookup
  nothing-Sound n c h = absurd cc

  listed-IfLoaded :
      (P : Map StoredClient → Type 0) (clients : Option (List StoredClient))
      → ((cs : List StoredClient) → clients ≡ some cs → IfLoaded P (load_clients lib cs [] []))
      → IfLoaded P (listed lib clients)
  unfolding IfLoaded listed
  listed-IfLoaded P none h = tt
  listed-IfLoaded P (some cs) h = h cs refl

  load-IfLoaded :
      (P : Map StoredClient → Type 0) (file : RegistryFile)
      → ((cs : List StoredClient) → file.clients ≡ some cs → IfLoaded P (load_clients lib cs [] []))
      → IfLoaded P (load lib file)
  unfolding IfLoaded load listed
  load-IfLoaded P file h =
      if-intro (IfLoaded P) (ltb max_registry_size file.size) (λ _. tt)
        (λ _.
          if-intro (IfLoaded P) (not (is_registry_version file.version)) (λ _. tt)
            (λ _. listed-IfLoaded P file.clients h))

  -- If a file is loaded, each of its clients is valid and found under its name: no client of the file is
  -- lost to another one.
  pub load-IsStored :
      (file : RegistryFile) (cs : List StoredClient) (m : Map StoredClient)
      → file.clients ≡ some cs
      → load lib file ≡ loaded m
      → All (IsStored m) cs
  unfolding IfLoaded
  load-IsStored file cs m e h = subst (IfLoaded (λ m. All (IsStored m) cs)) h (
      load-IfLoaded (λ m. All (IsStored m) cs) file
        (λ ds k.
          let equal : some cs ≡ some ds = cc in
          let same : cs ≡ ds = cc in
          subst (λ xs. IfLoaded (λ m. All (IsStored m) cs) (load_clients lib xs [] [])) same
            (load_clients-All cs [] [])))

  -- Each client that a loaded registry finds is valid, and has the name that it is found under.
  pub load-lookup :
      (file : RegistryFile) (m : Map StoredClient) (name : Bytes) (c : StoredClient)
      → load lib file ≡ loaded m
      → lookup name m ≡ some c
      → (c.name ≡ name) × (validate_stored_client lib c ≡ none)
  unfolding IfLoaded Sound
  load-lookup file m name c h found =
      subst (IfLoaded Sound) h
        (load-IfLoaded Sound file (λ cs _. clients-Sound cs [] [] nothing-Sound)) name c found
