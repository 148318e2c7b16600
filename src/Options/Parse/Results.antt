-- ===== src/Options/Parse/Results.antt =====
-- What holds of the options when `Parse` has returned OK.
use czi_pyramidizer.Prelude.{
  ◌≡◌, ◌≢◌, refl, ap, subst, ◌∙◌, sym, ◌⊎◌, inl, inr, arith, List, [], ◌∷◌, true, false, Bool-cases,
}
use czi_pyramidizer.Prelude.Outcome.{Outcome, ok, bind_inversion, ok-injective}
use czi_pyramidizer.Console.{Text, ConsoleCall}
use czi_pyramidizer.Main.{ParseResult, parsed, exit, parse_error, check_only, pyramidize}
use czi_pyramidizer.Strings.{utf8_to_wstring}
use czi_pyramidizer.Options.Help.{get_footer_text}
use czi_pyramidizer.Options.Parse.{
  Arguments, Options, Environment, call_for_help, cli_error, arguments, is_empty, call_console,
  store_arguments, choose_command, report_missing, parse_arguments, after_cli, CliResult, parse,
}
use czi_pyramidizer.Options.Parse.Stored.{IsStored, store_arguments-IsStored, keep-IsStored}

module _ {Parameters : Type 0} (env : Environment Parameters) where
  open env use {iconv, iconv_opens}

  -- The command, with the destination where a pyramid is to be made.
  abbrev pub CommandChosen : Arguments → Options Parameters → Type 0
  CommandChosen a options =
      ((a.do_only_check_flag ≡ true) × (options.command ≡ check_only))
      ⊎ ((a.do_only_check_flag ≡ false)
          × (options.command ≡ pyramidize)
          × (a.destination_czi_uri ≢ [])
          × (utf8_to_wstring iconv iconv_opens a.destination_czi_uri
              ≡ ok options.destination_czi_uri))

  pub record IsReady (a : Arguments) (before options : Options Parameters) : Type 0 where
    pub no_version : a.version_flag ≡ false
    pub has_source : a.source_czi_uri ≢ []
    pub stored : IsStored env a before options
    pub command : CommandChosen a options

  is_empty-false : (s : Text) → is_empty s ≡ false → s ≢ []
  is_empty-false [] h = cc
  is_empty-false (c ∷ s) h = λ e. cc

  -- The tuple of a return that is OK.
  returned :
      (calls calls' : List ConsoleCall) (result : ParseResult) (o o' : Options Parameters)
      → ◌≡◌ {A = Outcome (List ConsoleCall × ParseResult × Options Parameters)}
          (ok (calls, result, o))
          (ok (calls', parsed, o'))
      → (result ≡ parsed) × (calls ≡ calls') × (o ≡ o')
  returned calls calls' result o o' h =
      let e = ok-injective h in (ap (λ t. t.1) e, ap (λ t. t.0) e, ap (λ t. t.2) e)

  report_missing-not-parsed :
      (message : Text) (o options : Options Parameters) (calls : List ConsoleCall)
      → report_missing env message o ≢ ok (calls, parsed, options)
  unfolding report_missing call_console
  report_missing-not-parsed message o options calls h = ground arith

  chosen_command :
      (a : Arguments) (before stored options : Options Parameters) (calls : List ConsoleCall)
      → choose_command env a stored ≡ ok (calls, parsed, options)
      → IsStored env a before stored
      → (calls ≡ []) × IsStored env a before options × CommandChosen a options
  unfolding choose_command
  chosen_command a before stored options calls h s = elim (Bool-cases a.do_only_check_flag) [
    | inl check ↦
        let (p, c, o) = returned [] calls parsed _ options (rw (choose_command, check) at h) in
        (
          sym c,
          subst (λ x. IsStored env a before x) o
              (keep-IsStored env a before stored stored.destination_czi_uri check_only s),
          inl (check, ap (λ x. x.command) (sym o)),
        )
    | inr make ↦ elim (Bool-cases (is_empty a.destination_czi_uri)) [
      | inl empty ↦
          absurd (
            report_missing-not-parsed _ stored options calls
              (rw (choose_command, make, empty) at h))
      | inr given ↦
          let (destination, e, k) =
            bind_inversion (utf8_to_wstring iconv iconv_opens a.destination_czi_uri) _
              (rw (choose_command, make, given) at h) in
          let (p, c, o) = returned [] calls parsed _ options k in
          (
            sym c,
            subst (λ x. IsStored env a before x) o
                (keep-IsStored env a before stored destination pyramidize s),
            inr (
              make,
              ap (λ x. x.command) (sym o),
              is_empty-false a.destination_czi_uri given,
              e ∙ ap (λ x. ok x.destination_czi_uri) o,
            ),
          )
    ]
  ]

  pub parsed_arguments :
      (a : Arguments) (before options : Options Parameters) (calls : List ConsoleCall)
      → parse_arguments env a before ≡ ok (calls, parsed, options)
      → (calls ≡ []) × IsReady a before options
  unfolding parse_arguments
  parsed_arguments a before options calls h = elim (Bool-cases a.version_flag) [
    | inl version ↦
        let (p, c, o) = returned _ calls exit before options (rw (parse_arguments, version) at h) in
        absurd (cc)
    | inr no_version ↦ elim (Bool-cases (is_empty a.source_czi_uri)) [
      | inl empty ↦ absurd (
          report_missing-not-parsed _ before options calls
            (rw (parse_arguments, no_version, empty) at h))
      | inr given ↦
          let (stored, e, k) =
            bind_inversion (store_arguments env a before) _
              (rw (parse_arguments, no_version, given) at h) in
          let (none_written, is_stored, command) =
            chosen_command a before stored options calls k
              (store_arguments-IsStored env a before stored e) in
          (
            none_written,
            record {
              no_version = no_version;
              has_source = is_empty-false a.source_czi_uri given;
              stored = is_stored;
              command = command;
            },
          )
    ]
  ]

  cli_arguments :
      (footer : Text) (cli : CliResult) (before options : Options Parameters)
      (calls : List ConsoleCall)
      → after_cli env footer cli before ≡ ok (calls, parsed, options)
      → (a : Arguments) × (cli ≡ arguments a) × (calls ≡ []) × IsReady a before options
  unfolding after_cli
  cli_arguments footer call_for_help before options calls h =
      let (p, c, o) = returned _ calls exit before options h in absurd (cc)
  cli_arguments footer (cli_error what) before options calls h =
      let (p, c, o) = returned _ calls parse_error before options h in absurd (cc)
  cli_arguments footer (arguments a) before options calls h =
      let (none_written, ready) = parsed_arguments a before options calls h in
      (a, refl, none_written, ready)

  -- Where Parse returns OK, it has written nothing, and the options hold what the command line
  -- gives.
  pub parse_ok-IsReady :
      (before options : Options Parameters) (calls : List ConsoleCall)
      → parse env before ≡ ok (calls, parsed, options)
      → (calls ≡ [])
        × ((footer : Text) × (a : Arguments) × (get_footer_text env.lib_czi_info ≡ ok footer)
            × (env.cli_parse footer ≡ arguments a)
            × IsReady a before options)
  unfolding parse
  parse_ok-IsReady before options calls h =
      let (footer, f, k) = bind_inversion (get_footer_text env.lib_czi_info) _ h in
      let (a, e, none_written, ready) =
        cli_arguments footer (env.cli_parse footer) before options calls k in
      (none_written, (footer, a, f, e, ready))
