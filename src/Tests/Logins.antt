-- ===== src/Tests/Logins.antt =====
-- Logins with the PAM module.
use passkey.Base.{◌≡◌, ◌≢◌, refl, true, false, List, [], ◌∷◌, ◌++◌, none, some}
use passkey.Base.Text.{Text, codes}
use passkey.Pam.{Tick, verdict, waiting, Login, Host, config, is_ready, authenticate}
use passkey.Pam.Success.{authenticate-success, has_approval}
use passkey.Pam.Finish.{authenticate-ne-none}

abbrev host : Host
host = record {
  default_helper = codes "/usr/bin/passkey";
  uevents = some (codes "HID_ID=0003:00001209:00007AB1") ∷ [];
  read_file = λ path. some (codes "me:key");
  executable = λ path. true;
  user = some (codes "me");
  starts = true;
}

abbrev args : List Text
args = codes "mode=parallel" ∷ codes "authfile=keys" ∷ []

abbrev quiet : Tick
quiet = record { prompt = none; set_item = 0; starts = true; answer = waiting; expired = false }

abbrev approval : Tick
approval = record quiet { answer = verdict true }

-- An empty answer to the prompt.
abbrev enter : Tick
enter = record quiet { prompt = some (record { status = 0; answer = some [] }) }

abbrev ended : Login
ended = record { asking = false; tries = 1; prompting = true; result = 0; authtok = none }

ended_lem : authenticate host args (quiet ∷ approval ∷ []) ≡ some ended
unfolding authenticate
ended_lem = refl

authenticate-success_example :
    (has_approval (quiet ∷ approval ∷ []) ≡ true)
    × (is_ready host (config host args) (config host args).authfile host.user ≡ true)
    × (ended.authtok ≡ none)
authenticate-success_example =
    authenticate-success host args (quiet ∷ approval ∷ []) ended ended_lem refl

authenticate-ne-none_example : authenticate host args ((enter ∷ []) ++ approval ∷ []) ≢ none
authenticate-ne-none_example = authenticate-ne-none host args (enter ∷ []) (approval ∷ []) refl refl
