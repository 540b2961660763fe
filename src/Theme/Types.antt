-- ===== src/Theme/Types.antt =====
-- web/ui/src/theme.ts: the types of themes.
use haul.Base.{String}

-- The mode that is in effect.
pub data Mode : Type 0 where
  dark light : Mode

-- The mode that the user chose.
pub data ThemeMode : Type 0 where
  fixed : Mode → ThemeMode
  system : ThemeMode

pub record Preview : Type 0 where
  pub bg : String
  pub surface : String
  pub accent : String
  pub text : String

pub record Vars : Type 0 where
  pub bg_base : String
  pub bg_surface : String
  pub bg_elevated : String
  pub bg_subtle : String
  pub border_subtle : String
  pub border_default : String
  pub border_strong : String
  pub accent : String
  pub accent_hover : String
  pub accent_muted : String
  pub accent_fg : String
  pub text_primary : String
  pub text_secondary : String
  pub text_muted : String
  pub success : String
  pub warning : String
  pub danger : String

pub record ThemePreset : Type 0 where
  pub id : String
  pub label : String
  pub mode : Mode
  pub preview : Preview
  pub vars : Vars
