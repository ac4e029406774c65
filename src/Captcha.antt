-- ===== src/Captcha.antt =====
-- src/captcha.rs: the actions that a captcha token is asked for. The provider of tokens is the user's:
-- what it returns is the parameter `captcha` of `Env`.
use grindr_rs.Prelude.{Text, codes}

pub data CaptchaAction : Type 0 where
  device_key_registration : CaptchaAction
  decision_appeal : CaptchaAction

unfoldable pub as_str : CaptchaAction → Text
unfolding codes
as_str device_key_registration = codes "device_key_registration"
as_str decision_appeal = codes "decision_appeal"
