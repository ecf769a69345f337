-- ===== src/Cli/Commander/Registers.antt =====
-- What the agent registers, and what it makes public.
use camblet.Base.{
  ◌≡◌, ◌≢◌, refl, sym, ap, ◌∙◌, subst, List, [], ◌∷◌, ◌++◌, Option, none, some, inl, inr, String,
  ◌==◌, eq_iff, Option-cases, Bool-cases, false, arith, if◌then◌else◌,
}
use camblet.Base.Assoc.{Assoc, lookup, insert}
use camblet.Base.Result.{Error, Result, ok, err, panics, bind-ok_then, ok_inj, wrap_if}
use camblet.Tls.Types.{Bytes}
use camblet.Tls.Authority.Defs.{Ca, with_pem_file, new_certificate_authority}
use camblet.Agent.Commands.Dispatch.{Handler, add_handler, accept, connect}
use camblet.Agent.Commands.Log.{log}
use camblet.Agent.Commands.Augment.{augment, init}
use camblet.Agent.Commands.CsrSign.{ca_signer, csr_sign}
use camblet.Config.Collectors.{Collector, get_metadata_collector}
use camblet.Cli.Authority.{FileEvent, wrote, ensure_ca_certificate}
use camblet.Cli.Authority.Guarded.{IsGuarded, ensure_ca_certificate-IsGuarded}
use camblet.Cli.Commander.{
  AgentState, on_published, on_cache, CommanderParts, public_ca_pem_path, public_ca_pem,
  handlers_of, Registered, register, write_public, with_authority, with_path, run_commander,
}

-- A name of none of the five commands.
abbrev pub IsUnknown : String → Type 0
IsUnknown name =
    (name ≢ "accept")
    × (name ≢ "connect")
    × (name ≢ "log")
    × (name ≢ "csr_sign")
    × (name ≢ "augment")

differs : (key name : String) → name ≢ key → (key == name) ≡ false
differs key name ne = elim (Bool-cases (key == name)) [
  | inl e ↦ absurd (ne (sym ((eq_iff key name).0 e)))
  | inr e ↦ e
]

module _ {Store : Type 0} (parts : CommanderParts Store) where
  open parts use {
    config, crypto, later, formats, unmarshal_log, publish_error, ttl_cache, get_metadata,
    marshal_labels,
  }

  -- The handlers by their names, for an authority and the collectors.
  pub record Registers (handlers : Assoc (Handler (AgentState Store))) (ca : Ca)
      (collectors : List Collector) : Type 0 where
    pub accepts_ : lookup "accept" handlers ≡ some accept
    pub connects : lookup "connect" handlers ≡ some connect
    pub logs : lookup "log" handlers ≡ some (on_published (log unmarshal_log publish_error))
    pub signs :
        lookup "csr_sign" handlers
        ≡ some
            (csr_sign crypto formats (ca_signer crypto later ca) config.default_cert_ttl_duration)
    pub augments :
        lookup "augment" handlers
        ≡ some (on_cache (augment ttl_cache (get_metadata collectors) marshal_labels))
    pub no_other : (name : String) → IsUnknown name → lookup name handlers ≡ none

  handlers_of-Registers :
      (ca : Ca) (collectors : List Collector)
      → Registers (handlers_of parts ca collectors) ca collectors
  unfolding handlers_of add_handler insert lookup
  handlers_of-Registers ca collectors = record {
    accepts_ = refl;
    connects = refl;
    logs = refl;
    signs = refl;
    augments = refl;
    no_other = λ name (a, c, l, s, g).
        rw
          (
            differs "accept" name a,
            differs "connect" name c,
            differs "log" name l,
            differs "csr_sign" name s,
            differs "augment" name g,
          )
          refl;
  }

  -- What a run that succeeds has done.
  pub record Started (reg : Registered parts) (events : List FileEvent) : Type 0 where
    pub ca : Ca
    pub loaded :
        new_certificate_authority crypto later (with_pem_file config.ca_pem_path ∷ []) ≡ ok ca
    pub collectors : List Collector
    pub registers : Registers reg.0 ca collectors
    pub public_pem : Bytes
    pub of_anchor : public_ca_pem parts ca ≡ ok public_pem
    pub before : List FileEvent
    pub published :
        events ≡ before ++ wrote (public_ca_pem_path parts config.ca_pem_path) public_pem ∷ []
    pub guarded : IsGuarded false before

  register-ok :
      (ca : Ca) (reg : Registered parts)
      → register parts ca ≡ ok reg
      → (collectors : List Collector) × Registers reg.0 ca collectors
  register-ok ca reg h =
      bind-ok_then
        (get_metadata_collector crypto parts.read_content parts.accepts config.metadata_collectors)
        _ h
        λ collectors _ h'.
          bind-ok_then
            (init ttl_cache (get_metadata collectors) marshal_labels parts.tolerated parts.processes
              parts.new_cache)
            _ h'
            λ cache _ made. (
              collectors,
              subst (λ r. Registers r.0 ca collectors) (ok_inj _ reg made)
                  (handlers_of-Registers ca collectors),
            )

  write_public-ok :
      (path : String) (ca : Ca) (content : Result Bytes) (reg : Registered parts)
      → (write_public parts path ca content).0 ≡ ok reg
      → (pem : Bytes) × (content ≡ ok pem)
        × ((write_public parts path ca content).1 ≡ wrote path pem ∷ [])
        × (register parts ca ≡ ok reg)
  write_public-ok path ca (err e) reg h = cc
  write_public-ok path ca camblet.Base.Result.panics reg h = cc
  write_public-ok path ca (ok pem) reg h = elim (Option-cases (parts.fs.write path pem)) [
    | inl done ↦ (pem, refl, rw (done, write_public) refl, rw (done, write_public) at h)
    | inr (e, failed) ↦ cc (rw (failed, write_public) at h)
  ]

  with_authority-ok :
      (path : String) (loaded : Result Ca) (reg : Registered parts)
      → (with_authority parts path loaded).0 ≡ ok reg
      → (ca : Ca) × (loaded ≡ ok ca)
        × (pem : Bytes) × (public_ca_pem parts ca ≡ ok pem)
        × ((with_authority parts path loaded).1 ≡ wrote (public_ca_pem_path parts path) pem ∷ [])
        × (register parts ca ≡ ok reg)
  with_authority-ok path (err e) reg h = cc
  with_authority-ok path camblet.Base.Result.panics reg h = cc
  with_authority-ok path (ok ca) reg h =
      let (pem, e, events, registered) =
        write_public-ok (public_ca_pem_path parts path) ca (public_ca_pem parts ca) reg h in
      (ca, refl, pem, e, events, registered)

  with_path-Started :
      (before : List FileEvent) (ensured : Result String) (reg : Registered parts)
      → IsGuarded false before
      → ((p : String) → ensured ≡ ok p → p ≡ config.ca_pem_path)
      → (with_path parts before ensured).0 ≡ ok reg
      → Started reg (with_path parts before ensured).1
  with_path-Started before (err e) reg guarded gives h = cc
  with_path-Started before camblet.Base.Result.panics reg guarded gives h = cc
  with_path-Started before (ok path) reg guarded gives h =
      let (ca, loaded, pem, e, events, registered) =
        with_authority-ok path (new_certificate_authority crypto later (with_pem_file path ∷ []))
          reg h in
      let (collectors, registers) = register-ok ca reg registered in
      let same = gives path refl in
      record {
        ca = ca;
        loaded =
            subst (λ p. new_certificate_authority crypto later (with_pem_file p ∷ []) ≡ ok ca) same
              loaded;
        collectors = collectors;
        registers = registers;
        public_pem = pem;
        of_anchor = e;
        before = before;
        published =
            ap (λ es. before ++ es) events
            ∙ ap (λ p. before ++ wrote (public_ca_pem_path parts p) pem ∷ []) same;
        guarded = guarded;
      }

  -- If `runCommander` succeeds, the authority of the configured path was loaded, and the handlers
  -- of "accept", "connect", "log", "csr_sign", which signs with that authority, and "augment" are
  -- registered, and none of any other name; the last write is that of the certificate of the trust
  -- anchor to the public file, and every write before it comes after the mode of the file was set
  -- to that of its user alone.
  pub run_commander-Started :
      (reg : Registered parts)
      → (run_commander parts).0 ≡ ok reg
      → Started reg (run_commander parts).1
  unfolding run_commander
  run_commander-Started reg h =
      let (guarded, gives) =
        ensure_ca_certificate-IsGuarded crypto parts.platform parts.fs config.ca_pem_path in
      let ensured = ensure_ca_certificate crypto parts.platform parts.fs config.ca_pem_path in
      with_path-Started ensured.1 ensured.0 reg guarded gives h
