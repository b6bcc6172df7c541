-- ===== src/Cli/Hooks.antt =====
-- `deliverHookLogged` and `deliverHook` of internal/cli/root.go.
use regbot.Base.{[], Str, Option, none, some, Result, ok, err, ◌==◌, if◌then◌else◌}
use regbot.Plan.{ApplyResult}
use regbot.Config.Types.{Config}
use regbot.Config.Secrets.{SecretError, secret}
use regbot.Hook.{Notice, notice_of, delivered}
use regbot.Cli.{
  posted, logged_hook, HookError, no_secret, undelivered, World, Command, ◌>>=◌, ◌>>◌, give, emit,
  ask,
}

abbrev failure_of : Option Str → Option HookError
failure_of none = none
failure_of (some e) = some (undelivered e)

abbrev pub log_hook : Option HookError → Command (Unit {0})
log_hook none = give tt
log_hook (some e) = emit (logged_hook e)

module _ {F : Type 0} (world : World F) where
  abbrev pub post_notice : Option Str → Notice → Command (Option HookError)
  post_notice (some e) notice = give (some (undelivered e))
  post_notice none notice =
      (ask (λ h. world.post h notice) >>= λ answer.
      emit (posted notice) >> give (failure_of (delivered answer)))

  -- `config.Secret` of a variable of the environment.
  abbrev pub secret_of : Str → Result SecretError Str
  secret_of name = secret world.environment (λ file. none) (λ s. s) name []

  abbrev with_secret :
      Result SecretError Str → (Str → Command (Option HookError)) → Command (Option HookError)
  with_secret (ok s) k = k s
  with_secret (err e) k = give (some (no_secret e))

  unfoldable pub deliver_hook : Config F → ApplyResult → Command (Option HookError)
  deliver_hook config result = elim config.hooks.after_apply [
    | none ↦ give none
    | some configured ↦ with_secret (secret_of configured.url_env) (λ url.
        with_secret (secret_of configured.bearer_token_env) (λ token.
          with_secret (secret_of configured.hmac_secret_env) (λ key.
            post_notice (world.codec.malformed url) (
              notice_of world.codec
                (record {
                  url = url;
                  bearer_token = token;
                  hmac_secret = key;
                  timeout = configured.timeout;
                })
                result))))
  ]

  unfoldable pub deliver_hook_logged : Config F → ApplyResult → Command (Unit {0})
  deliver_hook_logged config result =
      let deliver = deliver_hook config result >>= log_hook in
      if result.deleted == 0 then give tt else deliver
