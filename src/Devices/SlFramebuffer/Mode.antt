-- ===== src/Devices/SlFramebuffer/Mode.antt =====
-- `enum fb_mode` of sl_framebuffer_device.h.
pub data FbMode : Type 0 where
  grey : FbMode
  rgb32 : FbMode
  yvyu : FbMode
  yv12 : FbMode
  yv16 : FbMode
