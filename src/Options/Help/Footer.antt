-- ===== src/Options/Help/Footer.antt =====
-- The footer of the synopsis: its text can be wrapped.
use czi_pyramidizer.Prelude.{◌≡◌, refl, List}
use czi_pyramidizer.Prelude.Outcome.{ok}
use czi_pyramidizer.Console.{Text}
use czi_pyramidizer.Options.Wrap.{wrap}
use czi_pyramidizer.Options.Help.{LibCziInfo, get_footer_text, footer_text}

pub footer_wraps : (lines : List Text) × (wrap footer_text 80 ≡ ok lines)
unfolding wrap
footer_wraps = (_, refl)

pub get_footer_text_returns : (info : LibCziInfo) → (text : Text) × (get_footer_text info ≡ ok text)
unfolding get_footer_text
get_footer_text_returns info = (_, refl)
