-- ===== src/Libs/Pacer/Waiting.antt =====
-- The wait that a pacer asks for is the time in which its bandwidth fills the deficit.
use tj_rtc.Libs.Pacer.{Pacer}
