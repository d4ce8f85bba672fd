-- ===== src/Server/Config/Starting.antt =====
-- When the proxy starts, and when it ends with an error instead of a panic.
use virt_db.Prelude.{
  ◌≡◌, ◌⊎◌, ◌↔◌, refl, sym, ap, ap₂, subst, ◌∙◌, true, false, some, some_injective, Option-cases,
  Bool-cases, codes, ◌++◌, inl, inr, Text, arith,
}
use virt_db.Text.Decimal.{to_string}
use virt_db.Admin.Error.{ok, err, Result-cases}
use virt_db.Server.Config.{
  VirtDbConfig, Files, Outcome, panicked, failed, done, real_config_file, parse_config, server_addr,
  mysql_addr, Network, Serving, start_serving, started, unwrap_outcome, main, unwrap, or_fail,
}

module _ (files : Files) (config_file : Text) where
  -- The file that is read: the one that was given if it exists, or else the one beside the program.
  abbrev pub Choice : files.FilePath → Text → Type 0
  Choice base_dir file =
      ((files.exists (files.path config_file) ≡ true) × (file ≡ config_file))
      ⊎ ((files.exists (files.path config_file) ≡ false)
          × (files.to_str (files.push base_dir (codes "config.toml")) ≡ some file))

  pub record IsChosen (file : Text) : Type 0 where
    pub exe : files.FilePath
    pub base_dir : files.FilePath
    pub current_exe : files.current_exe ≡ some exe
    pub parent : files.parent exe ≡ some base_dir
    pub chosen : Choice base_dir file

  Choice-real_config_file :
      (base_dir : files.FilePath) (file : Text)
      → Choice base_dir file
      → real_config_file files config_file base_dir ≡ some file
  Choice-real_config_file base_dir file (inl (x, e)) = ground (arith, x, e)
  Choice-real_config_file base_dir file (inr (x, e)) = ground (arith, x, e)

  real_config_file-Choice :
      (base_dir : files.FilePath) (file : Text)
      → real_config_file files config_file base_dir ≡ some file
      → Choice base_dir file
  real_config_file-Choice base_dir file h =
      elim (Bool-cases (files.exists (files.path config_file))) [
        | inl x ↦ inl (x, some_injective (sym h ∙ ground (arith, x)))
        | inr x ↦ inr (x, ground (arith, h, x))
      ]

  pub record Reads (c : VirtDbConfig) : Type 0 where
    pub file : Text
    pub toml_str : Text
    pub chosen : IsChosen file
    pub readable : files.read_to_string file ≡ ok toml_str
    pub parsed : files.from_str toml_str ≡ some c

  abbrev pub Unreadable : Text → Type 0
  Unreadable e = (file : Text) × IsChosen file × (files.read_to_string file ≡ err e)

  abbrev rest_of : Text → Outcome VirtDbConfig
  rest_of file = or_fail (files.read_to_string file) (λ s. unwrap (files.from_str s) (λ c. done c))

  parse_config-IsChosen :
      (file : Text) → IsChosen file → parse_config files config_file ≡ rest_of file
  unfolding parse_config
  parse_config-IsChosen file h =
      let e = h.current_exe in
      let p = h.parent in
      let c = Choice-real_config_file h.base_dir file h.chosen in ground (arith, e, p, c)

  -- A file is chosen, or the program panics.
  IsChosen-cases : (parse_config files config_file ≡ panicked) ⊎ ((file : Text) × IsChosen file)
  unfolding parse_config
  IsChosen-cases = elim (Option-cases files.current_exe) [
    | inl n ↦ inl (ground (arith, n))
    | inr (exe, x) ↦ elim (Option-cases (files.parent exe)) [
      | inl n ↦ inl (ground (arith, x, n))
      | inr (base_dir, p) ↦ elim (Option-cases (real_config_file files config_file base_dir)) [
        | inl n ↦ inl (ground (arith, x, p, n))
        | inr (file, c) ↦ inr (
          file,
          record {
            exe = exe;
            base_dir = base_dir;
            current_exe = x;
            parent = p;
            chosen = real_config_file-Choice base_dir file c;
          },
        )
      ]
    ]
  ]

  -- What `parse_config` comes to.
  parse_config-cases :
      (parse_config files config_file ≡ panicked)
      ⊎ (((c : VirtDbConfig) × (parse_config files config_file ≡ done c) × Reads c)
          ⊎ ((e : Text) × (parse_config files config_file ≡ failed e) × Unreadable e))
  parse_config-cases = elim IsChosen-cases [
    | inl p ↦ inl p
    | inr (file, h) ↦
        let q = parse_config-IsChosen file h in
        elim (Result-cases (files.read_to_string file)) [
          | inl (e, r) ↦ inr (inr (e, q ∙ ground (arith, r), (file, h, r)))
          | inr (toml_str, r) ↦ elim (Option-cases (files.from_str toml_str)) [
            | inl n ↦ inl (q ∙ ground (arith, r, n))
            | inr (c, f) ↦
                let reads : Reads c = record {
                  file = file;
                  toml_str = toml_str;
                  chosen = h;
                  readable = r;
                  parsed = f;
                } in
                inr (inl (c, q ∙ ground (arith, r, f), reads))
          ]
        ]
  ]

  Reads-parse_config : (c : VirtDbConfig) → Reads c → parse_config files config_file ≡ done c
  Reads-parse_config c h =
      let r = h.readable in
      let f = h.parsed in parse_config-IsChosen h.file h.chosen ∙ ground (arith, r, f)

  Unreadable-parse_config : (e : Text) → Unreadable e → parse_config files config_file ≡ failed e
  Unreadable-parse_config e (file, h, r) = parse_config-IsChosen file h ∙ ground (arith, r)

module _ (net : Network) (files : Files) (config_file : Text) where
  -- The configuration is read, its port is bound, and its Redis client is opened.
  pub record Serves (v : Serving) : Type 0 where
    pub reads : Reads files config_file v.config
    pub bound : net.bind v.bound ≡ ok tt
    pub opened : net.open_client v.config.redis.nodes ≡ ok tt
    pub bound_is : v.bound ≡ codes "0.0.0.0:" ++ to_string v.config.server.port
    pub mysql_is : v.mysql ≡ v.config.mysql.ip ++ codes ":" ++ to_string v.config.mysql.port

  abbrev served : VirtDbConfig → Serving
  served c = record { config = c; bound = server_addr c; mysql = mysql_addr c }

  start-cases :
      (c : VirtDbConfig)
      → (unwrap_outcome net (start_serving net c) ≡ panicked)
        ⊎ ((unwrap_outcome net (start_serving net c) ≡ done (served c))
            × (net.bind (server_addr c) ≡ ok tt)
            × (net.open_client c.redis.nodes ≡ ok tt))
  unfolding start_serving
  start-cases c = elim (Result-cases (net.bind (server_addr c))) [
    | inl (e, b) ↦ inl (ground (arith, b))
    | inr (u, b) ↦ elim (Result-cases (net.open_client c.redis.nodes)) [
      | inl (e, o) ↦ inl (ground (arith, b, o))
      | inr (u', o) ↦ inr (ground (arith, b, o), b, o)
    ]
  ]

  main-parsed :
      (c : VirtDbConfig)
      → parse_config files config_file ≡ done c
      → main net files config_file ≡ unwrap_outcome net (start_serving net c)
  unfolding main
  main-parsed c h = ap (started net) h

  main-unread :
      (e : Text) → parse_config files config_file ≡ failed e → main net files config_file ≡ failed e
  unfolding main
  main-unread e h = ap (started net) h

  main-panicked : parse_config files config_file ≡ panicked → main net files config_file ≡ panicked
  unfolding main
  main-panicked h = ap (started net) h

  abbrev served_by : Serving → Outcome Serving
  served_by v = done v

  done_injective : {v w : Serving} → served_by v ≡ served_by w → v ≡ w
  done_injective h = cc

  failed_injective : {d e : Text} → ◌≡◌ {A = Outcome Serving} (failed d) (failed e) → d ≡ e
  failed_injective h = cc

  Serves-of_main : (v : Serving) → main net files config_file ≡ done v → Serves v
  Serves-of_main v h = elim (parse_config-cases files config_file) [
    | inl p ↦ let m = main-panicked p in absurd cc
    | inr (inr (e, p, _)) ↦ let m = main-unread e p in absurd cc
    | inr (inl (c, p, reads)) ↦
        let m = main-parsed c p in
        elim (start-cases c) [
          | inl s ↦ absurd cc
          | inr (s, b, o) ↦
              let serves : Serves (served c) = record {
                reads = reads;
                bound = b;
                opened = o;
                bound_is = refl;
                mysql_is = refl;
              } in
              subst Serves (done_injective (sym s ∙ sym m ∙ h)) serves
        ]
  ]

  main-Serves : (v : Serving) → Serves v → main net files config_file ≡ done v
  unfolding start_serving
  main-Serves v h =
      let c = v.config in
      let b = sym (ap net.bind h.bound_is) ∙ h.bound in
      let o = h.opened in
      let same : served c ≡ v =
        ap₂ (λ a m. record { config = c; bound = a; mysql = m }) (sym h.bound_is)
          (sym h.mysql_is) in
      main-parsed c (Reads-parse_config files config_file c h.reads)
      ∙ ground (arith, b, o)
      ∙ ap served_by same

  Unreadable-of_main :
      (e : Text) → main net files config_file ≡ failed e → Unreadable files config_file e
  Unreadable-of_main e h = elim (parse_config-cases files config_file) [
    | inl p ↦ let m = main-panicked p in absurd cc
    | inr (inr (d, p, u)) ↦
        subst (Unreadable files config_file) (failed_injective (sym (main-unread d p) ∙ h)) u
    | inr (inl (c, p, reads)) ↦
        let m = main-parsed c p in
        elim (start-cases c) [ inl s ↦ absurd cc | inr (s, b, o) ↦ absurd cc ]
  ]

  -- The proxy serves exactly where the file that was given, or without it the one beside the program, is
  -- read as a configuration, the port in it is bound and its Redis client is opened, on that port and for
  -- the database in it; and it ends with an error exactly where that file cannot be read.
  pub main_iff :
      (v : Serving) (e : Text)
      → ((main net files config_file ≡ done v) ↔ Serves v)
        × ((main net files config_file ≡ failed e) ↔ Unreadable files config_file e)
  main_iff v e = (
    (Serves-of_main v, main-Serves v),
    (Unreadable-of_main e, λ u. main-unread e (Unreadable-parse_config files config_file e u)),
  )
