-- ===== src/Tests/Configured.antt =====
-- Tests of the settings.
use fineract_analytics_platf.Prelude.{◌≡◌, refl, none, some, str_eq, if◌then◌else◌}
use fineract_analytics_platf.Prelude.Int.{pos}
use fineract_analytics_platf.Values.{chars}
use fineract_analytics_platf.Parsers.Scan.{
  strip, lstrip, rstrip, int_of_text, scan_digits, without_underscores,
}
use fineract_analytics_platf.Config.Env.{Environment, env, env_int}
use fineract_analytics_platf.Config.Settings.{fineract_config}

-- Two settings, of which one is no integer.
abbrev environment : Environment
environment name =
    if str_eq name "FINERACT_PAGE_SIZE"
    then some (chars " 50 ")
    else if str_eq name "FINERACT_MAX_PAGES"
    then some (chars "many")
    else none

settings_read :
    ((fineract_config environment).page_size ≡ pos 50)
    × ((fineract_config environment).max_pages ≡ pos 500)
    × ((fineract_config environment).password ≡ chars "password")
unfolding fineract_config env env_int strip lstrip rstrip int_of_text scan_digits
    without_underscores chars
settings_read = (refl, refl, refl)
