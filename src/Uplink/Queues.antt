-- ===== src/Uplink/Queues.antt =====
-- main/gateway_uplink.cpp: the queues that `init` creates, before anything that can fail.
use esp32_s3_rap.Base.Queue.{QueueApi}
use esp32_s3_rap.Config.{status_uplink_queue_depth, video_uplink_queue_depth}
use esp32_s3_rap.Uplink.State.{StatusItem, VideoItem, Uplink}

unfoldable pub create_queues :
    (readings : QueueApi StatusItem) (frames : QueueApi VideoItem)
    → Uplink readings.Queue frames.Queue
    → Uplink readings.Queue frames.Queue
create_queues readings frames u = record u {
  video_queue = frames.create video_uplink_queue_depth;
  status_queue = readings.create status_uplink_queue_depth;
}
